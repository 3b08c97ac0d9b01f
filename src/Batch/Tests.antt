-- ===== src/Batch/Tests.antt =====
-- Batches with concrete transactions (src/batch/).
use axionvera_sdk.Prelude.{
  ℕ, ◌+◌, ◌≡◌, ◌↔◌, refl, String, true, if◌then◌else◌, ◌==◌, Option, none, some, List, [], ◌∷◌,
  length, ℤ, pos, negsuc, ok, err,
}
use axionvera_sdk.Batch.Types.{Dependency, Transaction, Config, ValidationResult}
use axionvera_sdk.Batch.Cycles.{
  detect_cycles, search_roots, dfs, visit, close, adjacency, in_range, push_in_range, mark_path,
  add_all,
}
use axionvera_sdk.Batch.Validator.{
  validate, is_blank, validate_config, check_transactions, validate_transactions, check_dependency,
  check_each, check_dependencies, cycle_issues, validate_dependencies,
}
use axionvera_sdk.Batch.Fuel.{detect_cycles-returns}
use axionvera_sdk.Batch.Accepts.{IsAcceptable, validate_iff}
use axionvera_sdk.Batch.Executor.{
  Env, other, execute, summarize, run_from, round, unmet, unmet_message, is_completed, attempt,
  execute_transaction, check_simulation, error_info, nothing_done, refused, Progress,
}
use axionvera_sdk.Batch.Results.{numbered, heads, Respects}
use axionvera_sdk.Batch.Summary.{summarize_lem}

batches : Unit {0}
unfolding detect_cycles search_roots dfs visit close adjacency in_range push_in_range mark_path
    add_all validate is_blank validate_config check_transactions validate_transactions
    check_dependency check_each check_dependencies cycle_issues validate_dependencies execute
    summarize run_from round unmet unmet_message is_completed attempt execute_transaction
    check_simulation error_info
batches = tt

abbrev tx : String → Option (List Dependency) → Transaction ℕ
tx label deps = record { label = label; operations = 7 ∷ []; metadata = none; dependencies = deps }

abbrev on : ℤ → Option (List Dependency)
on z = some (record { depends_on_index = z; label = none } ∷ [])

abbrev config : Config ℕ
config = record {
  source_account = some 5;
  fee_per_operation = none;
  timeout_in_seconds = some (pos 30);
  network_passphrase = some "Test";
  stop_on_failure = some true;
}

-- The simulation of transaction 1 throws.
abbrev env : Env ℕ ℕ (List ℕ) ℕ
env = record {
  build = λ account fee passphrase timeout ops. ok ops;
  simulate = λ i t.
      if i == 1
      then err (other "down")
      else ok (record { error = none; result = none; whole = length t });
  elapsed = λ i. i;
  total_elapsed = 9;
  show = λ z. "n";
}

abbrev three : List (Transaction ℕ)
three = tx "a" none ∷ tx "b" (on (pos 0)) ∷ tx "c" none ∷ []

-- A ring of two transactions, and one that leads to it.
abbrev ring : List (Transaction ℕ)
ring = tx "a" (on (pos 1)) ∷ tx "b" (on (pos 0)) ∷ tx "c" (on (negsuc 0)) ∷ []

ring_cycle : detect_cycles ring ≡ some (0 ∷ 1 ∷ [])
unfolding batches
ring_cycle = refl

-- Transaction 0 depends on the ring of 1 and 2, and is not part of it, but is marked too.
lead_in_marked :
    detect_cycles (tx "a" (on (pos 1)) ∷ tx "b" (on (pos 2)) ∷ tx "c" (on (pos 1)) ∷ [])
    ≡ some (0 ∷ 1 ∷ 2 ∷ [])
unfolding batches
lead_in_marked = refl

abbrev three_done : Progress ℕ
three_done = run_from env config 0 three nothing_done

three_ends :
    (heads three_done.results ≡ (0, "a") ∷ (1, "b") ∷ (2, "c") ∷ [])
    × (three_done.completed ≡ 0 ∷ [])
    × (three_done.skipped ≡ 2 ∷ [])
    × ((summarize env config three three_done).failure_count ≡ 1)
unfolding batches
three_ends = (refl, refl, refl, refl)

detect_cycles-returns_example : (us : List ℕ) × (detect_cycles ring ≡ some us)
detect_cycles-returns_example = detect_cycles-returns ring

validate_iff_example :
    (r : ValidationResult) × (validate three config ≡ some r)
    × ((r.valid ≡ true) ↔ IsAcceptable three config)
validate_iff_example = validate_iff three config

summarize_lem_example :
    let b = summarize env config three three_done in
    (heads b.transactions ≡ numbered 0 three)
    × Respects env config [] three b.transactions
    × (b.success_count + b.failure_count + b.skipped_count ≡ b.total_count)
    × ((b.all_succeeded ≡ true) ↔ (b.failure_count + b.skipped_count ≡ 0))
summarize_lem_example = summarize_lem env config three

abbrev failed_first : Progress ℕ
failed_first = record {
  results = refused (tx "a" none) 0 "E" "m" ∷ [];
  skipped = [];
  completed = [];
}
