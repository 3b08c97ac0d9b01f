-- ===== src/Batch/Cycles.antt =====
-- src/batch/batchValidator.ts: detectCycles, a depth-first search over the dependencies. The array of
-- colours is a function, a `Set<number>` the list of its members in the order of insertion. `dfs` takes
-- fuel, one unit for each level of its recursion, and `none` means that it ran out.
use axionvera_sdk.Prelude.{
  ℕ, zero, suc, ◌+◌, Bool, true, false, not, Option, none, some, List, [], ◌∷◌, ◌++◌, any, keep,
  length, if◌then◌else◌, ◌==◌, ltb, or_else, ℤ, pos, negsuc,
}
use axionvera_sdk.Batch.Types.{Dependency, Transaction}

pub data Color : Type 0 where
  white gray black : Color

pub record Search : Type 0 where
  pub color : ℕ → Color
  pub path : List ℕ
  pub in_cycle : List ℕ

abbrev pub start : Search
start = record { color = λ _. white; path = []; in_cycle = [] }

abbrev pub paint : (ℕ → Color) → ℕ → Color → ℕ → Color
paint color u c v = if v == u then c else color v

-- `Set.add` and `Set.delete`
abbrev pub add : List ℕ → ℕ → List ℕ
add xs u = if any (λ x. x == u) xs then xs else xs ++ u ∷ []

abbrev pub remove : List ℕ → ℕ → List ℕ
remove xs u = keep (λ x. not (x == u)) xs

unfoldable pub add_all : List ℕ → List ℕ → List ℕ
add_all xs [] = xs
add_all xs (u ∷ us) = add_all (add xs u) us

-- `if (index >= 0 && index < n) row.push(index)`
unfoldable pub push_in_range : ℕ → ℤ → List ℕ → List ℕ
push_in_range n (pos k) row = if ltb k n then k ∷ row else row
push_in_range n (negsuc k) row = row

-- The indices in range that a transaction depends on: one row of `adj`.
unfoldable pub in_range : ℕ → List Dependency → List ℕ
unfolding push_in_range
in_range n [] = []
in_range n (d ∷ ds) = push_in_range n d.depends_on_index (in_range n ds)

unfoldable pub adjacency : {Op : Type 0} → ℕ → List (Transaction Op) → ℕ → List ℕ
adjacency n [] u = []
adjacency n (t ∷ ts) zero = in_range n (or_else t.dependencies [])
adjacency n (t ∷ ts) (suc u) = adjacency n ts u

abbrev pub enter : Search → ℕ → Search
enter s u = record s { color = paint s.color u gray; path = add s.path u }

abbrev pub leave : Search → ℕ → Search
leave s u = record s { color = paint s.color u black; path = remove s.path u }

-- A back edge: every node of the current path is marked.
unfoldable pub mark_path : Search → Search
unfolding add_all
mark_path s = record s { in_cycle = add_all s.in_cycle s.path }

abbrev pub Visit : Type 0
Visit = Option (Bool × Search)

-- The loop over `adj[u]`; `go` is the recursive call of `dfs`.
unfoldable pub visit : (ℕ → Search → Visit) → List ℕ → Search → Visit
visit go [] s = some (false, s)
visit go (v ∷ vs) s = elim (s.color v) [
  | gray ↦ some (true, mark_path s)
  | white ↦ elim (go v s) [
    | none ↦ none
    | some (found, t) ↦ elim found [ true ↦ some (true, t) | false ↦ visit go vs t ]
  ]
  | black ↦ visit go vs s
]

-- The end of `dfs`, after the loop.
unfoldable pub close : ℕ → Visit → Visit
close u none = none
close u (some (true, t)) = some (true, t)
close u (some (false, t)) = some (false, leave t u)

unfoldable pub dfs : (ℕ → List ℕ) → ℕ → ℕ → Search → Visit
unfolding visit close
dfs adj zero u s = none
dfs adj (suc f) u s = close u (visit (dfs adj f) (adj u) (enter s u))

-- The loop over the roots `i .. i + k - 1`; each search starts with an empty path.
unfoldable pub search_roots : (ℕ → List ℕ) → ℕ → ℕ → ℕ → Search → Option Search
unfolding dfs
search_roots adj f zero i s = some s
search_roots adj f (suc k) i s = elim (s.color i) [
  | white ↦ elim (dfs adj f i (record s { path = [] })) [
    | none ↦ none
    | some (_, t) ↦ search_roots adj f k (i + 1) t
  ]
  | gray ↦ search_roots adj f k (i + 1) s
  | black ↦ search_roots adj f k (i + 1) s
]

-- As many levels as there are transactions, and one more.
unfoldable pub detect_cycles : {Op : Type 0} → List (Transaction Op) → Option (List ℕ)
detect_cycles ts =
    let n = length ts in
    elim (search_roots (adjacency n ts) (suc n) n 0 start) [
      | none ↦ none
      | some t ↦ some t.in_cycle
    ]
