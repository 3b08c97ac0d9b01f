-- ===== src/Plugin/Order.antt =====
-- src/plugin/validation.ts: topologicalSort, a second depth-first search. It takes fuel as the first one does.
use axionvera_sdk.Prelude.{
  ℕ, zero, suc, String, true, false, not, Option, none, some, List, [], ◌∷◌, ◌++◌, keep, length,
  str_eq, Outcome, ok, err,
}
use axionvera_sdk.Prelude.Dict.{Dict, has, get}
use axionvera_sdk.Plugin.Types.{Config, Error, circular}
use axionvera_sdk.Plugin.Cycles.{is_member, targets, keys, detect_circular_dependencies}

pub record Sorting : Type 0 where
  pub sorted : List String
  pub visited : List String
  pub visiting : List String

abbrev pub unsorted : Sorting
unsorted = record { sorted = []; visited = []; visiting = [] }

abbrev pub begin : Sorting → String → Sorting
begin s id = record s { visiting = id ∷ s.visiting }

abbrev pub finish : Sorting → String → Sorting
finish s id = record {
  sorted = s.sorted ++ id ∷ [];
  visited = id ∷ s.visited;
  visiting = keep (λ i. not (str_eq i id)) s.visiting;
}

-- The loop over the ids; `go` is `visit`. Only the ids of plugins are visited.
unfoldable pub visit_all :
    (String → Sorting → Option Sorting) → List String → Sorting → Option Sorting
visit_all go [] s = some s
visit_all go (id ∷ ids) s = elim (go id s) [ none ↦ none | some t ↦ visit_all go ids t ]

abbrev pub finish_after : String → Option Sorting → Option Sorting
finish_after id none = none
finish_after id (some t) = some (finish t id)

unfoldable pub known : Dict Config → List String → List String
unfolding get
known plugins ids = keep (λ id. has id plugins) ids

unfoldable pub visit : Dict Config → ℕ → String → Sorting → Option Sorting
unfolding visit_all targets known
visit plugins zero id s = none
visit plugins (suc f) id s = elim (is_member id s.visited) [
  | true ↦ some s
  | false ↦ elim (is_member id s.visiting) [
    | true ↦ some s
    | false ↦
        finish_after id
          (visit_all (visit plugins f) (known plugins (targets plugins id)) (begin s id))
  ]
]

abbrev pub sorted_ids : Option Sorting → Option (Outcome Error (List String))
sorted_ids none = none
sorted_ids (some s) = some (ok s.sorted)

-- A level for each plugin, and one more.
unfoldable pub sort_from : Dict Config → Option (Outcome Error (List String))
unfolding visit_all visit
sort_from plugins =
    sorted_ids (visit_all (visit plugins (suc (length plugins))) (keys plugins) unsorted)

unfoldable pub topological_sort : Dict Config → Option (Outcome Error (List String))
unfolding detect_circular_dependencies sort_from
topological_sort plugins = elim (detect_circular_dependencies plugins) [
  | none ↦ none
  | some [] ↦ sort_from plugins
  | some (c ∷ cs) ↦ some (err (circular (c ∷ cs)))
]
