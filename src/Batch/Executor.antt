-- ===== src/Batch/Executor.antt =====
-- src/batch/batchExecutor.ts: BatchExecutor. The transaction builder of @stellar/stellar-sdk, the RPC
-- client, the clock and the text of a number (`show`) are parameters; a promise that rejects is an `err` with what was thrown.
use axionvera_sdk.Prelude.{
  zero, ◌*◌, ◌+◌, ℕ, suc, String, Bool, true, false, not, ◌&&◌, Option, none, some, List, [], ◌∷◌,
  ◌++◌, map, any, keep, length, if◌then◌else◌, ◌==◌, or_else, is_empty, ℤ, pos, negsuc, Outcome, ok,
  err, ◌>>=◌,
}
use Prim.Native.String.{◌++◌ as append_text}
use axionvera_sdk.Batch.Types.{
  Dependency, Transaction, Config, ErrorInfo, TransactionResult, BatchResult, ValidationResult,
}
use axionvera_sdk.Batch.Validator.{validate}

-- A value that is thrown: an `Error`, or anything else by its `String(…)`.
pub data Thrown : Type 0 where
  error : ErrorInfo → Thrown
  other : String → Thrown

-- What the RPC client answers: its `error` if that is truthy, with the text if it is a string, its
-- `result` if it has one, and all of it.
pub record Simulation (Sim : Type 0) : Type 0 where
  pub error : Option (Option String)
  pub result : Option Sim
  pub whole : Sim

pub record Env (Op Account Tx Sim : Type 0) : Type 0 where
  pub build : Account → String → String → ℤ → List Op → Outcome Thrown Tx
  pub simulate : ℕ → Tx → Outcome Thrown (Simulation Sim)
  pub elapsed : ℕ → ℕ
  pub total_elapsed : ℕ
  pub show : ℤ → String

-- `new Set<number>().has(index)`
unfoldable pub is_completed : List ℕ → ℤ → Bool
is_completed done (pos k) = any (λ x. x == k) done
is_completed done (negsuc k) = false

-- `labels.join(', ')`
unfoldable pub join : List String → String
join [] = ""
join (s ∷ []) = s
join (s ∷ ss) = append_text s (append_text ", " (join ss))

unfoldable pub error_info : Thrown → ErrorInfo
error_info (error e) = e
error_info (other s) = record { name = "Error"; message = s }

-- `throw new SimulationFailedError(…)`
unfoldable pub simulation_failed : Option String → Thrown
simulation_failed (some s) = error (record { name = "SimulationFailedError"; message = s })
simulation_failed none =
    error (record { name = "SimulationFailedError"; message = "Simulation returned an error" })

unfoldable pub check_simulation : {Sim : Type 0} → Simulation Sim → Outcome Thrown Sim
unfolding simulation_failed
check_simulation sim = elim sim.error [
  | none ↦ ok (or_else sim.result sim.whole)
  | some e ↦ err (simulation_failed e)
]

-- `z * n`
unfoldable pub scale : ℕ → ℤ → ℤ
scale n (pos k) = pos (k * n)
scale zero (negsuc k) = pos 0
scale (suc n) (negsuc k) = negsuc (k * suc n + n)

-- A result for a transaction that is not attempted.
abbrev pub refused :
    {Op Sim : Type 0} → Transaction Op → ℕ → String → String → TransactionResult Sim
refused t i name message = record {
  index = i;
  label = t.label;
  success = false;
  result = none;
  error = some (record { name = name; message = message });
  duration_ms = 0;
}

pub record Progress (Sim : Type 0) : Type 0 where
  pub results : List (TransactionResult Sim)
  pub skipped : List ℕ
  pub completed : List ℕ

abbrev pub failed_before : {Sim : Type 0} → List (TransactionResult Sim) → Bool
failed_before rs = any (λ r. not r.success) rs

unfoldable pub unmet : {Op : Type 0} → List ℕ → Transaction Op → List Dependency
unfolding is_completed
unmet done t = keep (λ d. not (is_completed done d.depends_on_index)) (or_else t.dependencies [])

abbrev pub skipped_result : {Op Sim : Type 0} → Transaction Op → ℕ → TransactionResult Sim
skipped_result t i =
    refused t i "BatchSkippedError"
      "Skipped due to stopOnFailure after a previous transaction failed"

abbrev pub skip : {Op Sim : Type 0} → Progress Sim → Transaction Op → ℕ → Progress Sim
skip s t i = record {
  results = s.results ++ skipped_result t i ∷ [];
  skipped = s.skipped ++ i ∷ [];
  completed = s.completed;
}

-- `results.push(txResult)`, and `completedIndices.add(i)` if it is a success.
abbrev pub settle : {Sim : Type 0} → Progress Sim → TransactionResult Sim → ℕ → Progress Sim
settle s r i = record s {
  results = s.results ++ r ∷ [];
  completed = if r.success then s.completed ++ i ∷ [] else s.completed;
}

abbrev pub nothing_done : {Sim : Type 0} → Progress Sim
nothing_done = record { results = []; skipped = []; completed = [] }

module _ {Op Account Tx Sim : Type 0} (env : Env Op Account Tx Sim) (c : Config Account) where
  -- The body of the `try` of `executeTransaction`. A valid configuration has an account and a
  -- passphrase, so the two first cases do not arise from `execute`.
  unfoldable pub attempt : Transaction Op → ℕ → Outcome Thrown Sim
  unfolding check_simulation
  attempt t i = elim c.source_account [
    | none ↦ err (other "no account")
    | some account ↦ do
      let fee = or_else c.fee_per_operation (pos 100000)
      tx ←
          env.build account (env.show (scale (length t.operations) fee))
            (or_else c.network_passphrase "") (or_else c.timeout_in_seconds (pos 60)) t.operations
      sim ← env.simulate i tx
      check_simulation sim
  ]

  unfoldable pub execute_transaction : Transaction Op → ℕ → TransactionResult Sim
  unfolding error_info
  execute_transaction t i = elim (attempt t i) [
    | ok r ↦ record {
      index = i;
      label = t.label;
      success = true;
      result = some r;
      error = none;
      duration_ms = env.elapsed i;
    }
    | err e ↦ record {
      index = i;
      label = t.label;
      success = false;
      result = none;
      error = some (error_info e);
      duration_ms = env.elapsed i;
    }
  ]

  -- `config.stopOnFailure === true`
  abbrev pub stops : Bool
  stops = or_else c.stop_on_failure false

  unfoldable pub unmet_message : Transaction Op → List Dependency → String
  unfolding join
  unmet_message t ds = append_text "Transaction \"" (
      append_text t.label (
        append_text "\" has unmet dependencies: "
          (join (map (λ d. append_text "index " (env.show d.depends_on_index)) ds))))

  abbrev pub refuse : Progress Sim → Transaction Op → ℕ → Progress Sim
  refuse s t i = record s {
    results =
        s.results
        ++ refused t i "DependencyNotMetError" (unmet_message t (unmet s.completed t)) ∷ [];
  }

  -- One round of the loop of `execute`.
  unfoldable pub round : Progress Sim → Transaction Op → ℕ → Progress Sim
  round s t i =
      if stops && failed_before s.results
      then skip s t i
      else if not (is_empty (unmet s.completed t))
      then refuse s t i
      else settle s (execute_transaction t i) i

  unfoldable pub run_from : ℕ → List (Transaction Op) → Progress Sim → Progress Sim
  run_from i [] s = s
  run_from i (t ∷ ts) s = run_from (suc i) ts (round s t i)

  unfoldable pub summarize : List (Transaction Op) → Progress Sim → BatchResult Sim
  summarize ts s =
      let successes = length (keep (λ r. r.success) s.results) in
      record {
        total_count = length ts;
        success_count = successes;
        failure_count =
            length (keep (λ r. not r.success && not (any (λ k. k == r.index) s.skipped)) s.results);
        skipped_count = length s.skipped;
        transactions = s.results;
        total_duration_ms = env.total_elapsed;
        all_succeeded = successes == length ts;
        skipped_indices = s.skipped;
      }

  -- Throws a BatchValidationError, which carries the result of the validation, or returns a summary.
  -- `none` only if the validation ran out of fuel, which it does not.
  unfoldable pub execute :
      List (Transaction Op) → Option (Outcome ValidationResult (BatchResult Sim))
  execute ts = elim (validate ts c) [
    | none ↦ none
    | some v ↦ some (if v.valid then ok (summarize ts (run_from 0 ts nothing_done)) else err v)
  ]
