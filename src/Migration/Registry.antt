-- ===== src/Migration/Registry.antt =====
-- src/migrations/migrationRegistry.ts: MigrationRegistry. `resolvePath` is a breadth-first search; its loop
-- takes one unit of fuel for each entry of the queue, and `none` means that it ran out.
use axionvera_sdk.Prelude.{
  ℕ, zero, suc, ◌+◌, String, Bool, false, not, Option, none, some, List, [], ◌∷◌, ◌++◌, any, keep,
  length, if◌then◌else◌, ◌==◌, str_eq, or_else, Outcome, ok, err,
}
use axionvera_sdk.Prelude.Dict.{Dict, get, set}
use axionvera_sdk.Migration.Types.{Step, Plan}

abbrev pub Registry : Type 0 → Type 0
Registry S = Dict (List (Step S))

-- MigrationPathNotFoundError
pub record PathNotFound : Type 0 where
  pub contract_id : String
  pub from_version : String
  pub to_version : String

abbrev pub Entry : Type 0 → Type 0
Entry S = String × List (Step S)

-- What the loop over the edges of a version gives: a path, or the new `visited` and `queue`.
pub data ScanResult (S : Type 0) : Type 0 where
  found : List (Step S) → ScanResult S
  scanned : List String → List (Entry S) → ScanResult S

-- `visited.has(v)`
abbrev pub is_visited : List String → String → Bool
is_visited visited v = any (λ w. str_eq w v) visited

module _ {S : Type 0} where
  unfoldable pub list_steps : Registry S → String → List (Step S)
  unfolding get
  list_steps m contract = or_else (get contract m) []

  unfoldable pub register : Registry S → String → Step S → Registry S
  unfolding get set
  register m contract step =
      set contract
        (keep (λ e. not (str_eq e.id step.id)) (or_else (get contract m) []) ++ step ∷ []) m

  unfoldable pub unregister : Registry S → String → String → Bool × Registry S
  unfolding get set
  unregister m contract id = elim (get contract m) [
    | none ↦ (false, m)
    | some steps ↦
        let next = keep (λ e. not (str_eq e.id id)) steps in
        (not (length next == length steps), set contract next m)
  ]

  -- One round of the loop that builds `edgesByFrom`.
  unfoldable pub add_edge : Dict (List (Step S)) → Step S → Dict (List (Step S))
  unfolding get set
  add_edge m e = set e.from_version (or_else (get e.from_version m) [] ++ e ∷ []) m

  unfoldable pub edges_by_from : Dict (List (Step S)) → List (Step S) → Dict (List (Step S))
  unfolding add_edge
  edges_by_from m [] = m
  edges_by_from m (e ∷ es) = edges_by_from (add_edge m e) es

  unfoldable pub scan :
      String → List (Step S) → List (Step S) → List String → List (Entry S) → ScanResult S
  scan to path [] visited queue = scanned visited queue
  scan to path (e ∷ es) visited queue =
      let known = is_visited visited e.to_version in
      let rest =
        scan to path es (if known then visited else visited ++ e.to_version ∷ [])
          (if known then queue else queue ++ (e.to_version, path ++ e ∷ []) ∷ []) in
      if str_eq e.to_version to then found (path ++ e ∷ []) else rest

  -- The `while` loop: a path, if there is one.
  unfoldable pub search :
      Dict (List (Step S))
      → String
      → ℕ
      → List String
      → List (Entry S)
      → Option (Option (List (Step S)))
  unfolding scan get
  search edges to zero visited queue = none
  search edges to (suc f) visited [] = some none
  search edges to (suc f) visited ((v, path) ∷ queue) =
      elim (scan to path (or_else (get v edges) []) visited queue) [
        | found p ↦ some (some p)
        | scanned visited' queue' ↦ search edges to f visited' queue'
      ]

  -- As many entries as there are steps, the first one, and the empty queue.
  unfoldable pub resolve_path :
      Registry S → String → String → String → Option (Outcome PathNotFound (Plan S))
  resolve_path m contract from to =
      let plan : List (Step S) → Plan S = λ steps. record {
        contract_id = contract;
        from_version = from;
        to_version = to;
        steps = steps;
      } in
      let steps = list_steps m contract in
      if str_eq from to
      then some (ok (plan []))
      else elim (search (edges_by_from [] steps) to (2 + length steps) (from ∷ [])
          ((from, []) ∷ [])) [
            | none ↦ none
            | some none ↦
                some (err (record { contract_id = contract; from_version = from; to_version = to }))
            | some (some p) ↦ some (ok (plan p))
          ]
