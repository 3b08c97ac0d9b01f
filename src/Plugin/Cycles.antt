-- ===== src/Plugin/Cycles.antt =====
-- src/plugin/validation.ts: detectCircularDependencies, a depth-first search over the plugins by id. A
-- `Set<string>` is the list of its members. The search takes fuel, one unit for each level of the recursion,
-- and `none` means that it ran out.
use axionvera_sdk.Prelude.{
  ℕ, zero, suc, String, Bool, true, false, not, Option, none, some, List, [], ◌∷◌, ◌++◌, map, any,
  keep, length, if◌then◌else◌, str_eq,
}
use axionvera_sdk.Prelude.Dict.{Dict, get}
use axionvera_sdk.Plugin.Types.{Config}
use axionvera_sdk.Plugin.Validation.{dependencies_of}

abbrev pub is_member : String → List String → Bool
is_member id ids = any (λ i. str_eq i id) ids

-- The ids that the plugin of an id depends on: none, where the id is not in the map.
abbrev pub targets_of : Option Config → List String
targets_of none = []
targets_of (some c) = map (λ d. d.plugin_id) (dependencies_of c)

unfoldable pub targets : Dict Config → String → List String
unfolding get
targets plugins id = targets_of (get id plugins)

pub record Search : Type 0 where
  pub visited : List String
  pub stack : List String
  pub path : List String
  pub cycles : List (List String)

abbrev pub start : Search
start = record { visited = []; stack = []; path = []; cycles = [] }

-- `path.slice(path.indexOf(id))`
unfoldable pub from_first : String → List String → List String
from_first id [] = []
from_first id (i ∷ is) = let rest = from_first id is in if str_eq i id then i ∷ is else rest

abbrev pub enter : Search → String → Search
enter s id = record s { visited = id ∷ s.visited; stack = id ∷ s.stack; path = s.path ++ id ∷ [] }

-- `path.pop()`
unfoldable pub without_last : List String → List String
without_last [] = []
without_last (i ∷ []) = []
without_last (i ∷ j ∷ is) = i ∷ without_last (j ∷ is)

unfoldable pub leave : Search → String → Search
unfolding without_last
leave s id = record s { stack = keep (λ i. not (str_eq i id)) s.stack; path = without_last s.path }

-- An edge to a plugin that was visited: a cycle, if it is on the current path.
unfoldable pub close_cycle : Search → String → Search
unfolding from_first
close_cycle s id =
    if is_member id s.stack
    then record s { cycles = s.cycles ++ (from_first id s.path ++ id ∷ []) ∷ [] }
    else s

-- The loop over the dependencies; `go` is the recursive call of `dfs`.
unfoldable pub visit : (String → Search → Option Search) → List String → Search → Option Search
unfolding close_cycle
visit go [] s = some s
visit go (id ∷ ids) s = elim (is_member id s.visited) [
  | true ↦ visit go ids (close_cycle s id)
  | false ↦ elim (go id s) [ none ↦ none | some t ↦ visit go ids t ]
]

abbrev pub leave_after : String → Option Search → Option Search
leave_after id none = none
leave_after id (some t) = some (leave t id)

unfoldable pub dfs : Dict Config → ℕ → String → Search → Option Search
unfolding visit targets leave
dfs plugins zero id s = none
dfs plugins (suc f) id s = leave_after id (visit (dfs plugins f) (targets plugins id) (enter s id))

-- The loop over the keys of the map.
unfoldable pub search_roots : Dict Config → ℕ → List String → Search → Option Search
unfolding dfs
search_roots plugins f [] s = some s
search_roots plugins f (id ∷ ids) s = elim (is_member id s.visited) [
  | true ↦ search_roots plugins f ids s
  | false ↦ elim (dfs plugins f id s) [ none ↦ none | some t ↦ search_roots plugins f ids t ]
]

abbrev pub keys : Dict Config → List String
keys = map λ e. e.0

-- The ids that the search can meet: those of the plugins and of their dependencies.
abbrev pub mentioned : Dict Config → List String
mentioned [] = []
mentioned ((id, c) ∷ more) = id ∷ (map (λ d. d.plugin_id) (dependencies_of c) ++ mentioned more)

abbrev pub cycles_found : Option Search → Option (List (List String))
cycles_found none = none
cycles_found (some s) = some s.cycles

-- As many levels as there are ids to meet, and one more.
unfoldable pub detect_circular_dependencies : Dict Config → Option (List (List String))
unfolding search_roots
detect_circular_dependencies plugins =
    cycles_found (search_roots plugins (suc (length (mentioned plugins))) (keys plugins) start)
