-- ===== src/Batch/Summary.antt =====
-- The whole of BatchExecutor.execute (src/batch/batchExecutor.ts).
use axionvera_sdk.Prelude.{
  keep, ℕ, suc, ◌+◌, ◌≡◌, refl, sym, ap, subst, ◌∙◌, ◌⊎◌, inl, inr, ◌↔◌, true, false, some, List,
  [], ◌∷◌, length, ==_iff, ok, err, arith, Bool-cases,
}
use axionvera_sdk.Batch.Types.{Transaction, Config, TransactionResult, ValidationResult}
use axionvera_sdk.Batch.Accepts.{IsAcceptable, validate_iff}
use axionvera_sdk.Batch.Results.{numbered, heads, Respects, run_from-Extended}
use axionvera_sdk.Batch.Counts.{run_from-counts}
use axionvera_sdk.Batch.Executor.{Env, nothing_done, run_from, summarize, execute}

module _ {Op Account Tx Sim : Type 0} (env : Env Op Account Tx Sim) (c : Config Account) where
  -- `execute` always ends: with a summary for a batch that is acceptable, and with the validation error
  -- for any other, in which case nothing is built or simulated.
  pub execute_cases :
      (ts : List (Transaction Op))
      → (IsAcceptable ts c
          × (execute env c ts ≡ some (ok (summarize env c ts (run_from env c 0 ts nothing_done)))))
        ⊎ (¬ IsAcceptable ts c
            × ((r : ValidationResult) × (r.valid ≡ false) × (execute env c ts ≡ some (err r))))
  unfolding execute
  execute_cases ts =
      let (r, e, (to, from)) = validate_iff ts c in
      elim (Bool-cases r.valid) [
        | inl valid ↦ inl (to valid, rw (e, execute) (ground arith))
        | inr invalid ↦ inr ((λ a. cc (from a)), (r, invalid, rw (e, execute) (ground arith)))
      ]

  length-heads : (rs : List (TransactionResult Sim)) → length (heads rs) ≡ length rs
  length-heads [] = refl
  length-heads (r ∷ rs) = ap suc (length-heads rs)

  length-numbered : (i : ℕ) (ts : List (Transaction Op)) → length (numbered i ts) ≡ length ts
  length-numbered i [] = refl
  length-numbered i (t ∷ ts) = ap suc (length-numbered (suc i) ts)

  length-results :
      (ts : List (Transaction Op)) → length (run_from env c 0 ts nothing_done).results ≡ length ts
  length-results ts =
      let e = run_from-Extended env c 0 ts nothing_done in
      ap length e.results ∙ sym (length-heads e.added) ∙ ap length e.numbers ∙ length-numbered 0 ts

  -- The summary of a batch has one result for each transaction, with its index and label, in order. A
  -- transaction that succeeded comes after the success of all that it depends on. Successes, failures
  -- and skipped transactions add up to the total, and `allSucceeded` says that no other than successes
  -- are there.
  pub summarize_lem :
      (ts : List (Transaction Op))
      → let b = summarize env c ts (run_from env c 0 ts nothing_done) in
        (heads b.transactions ≡ numbered 0 ts)
        × Respects env c [] ts b.transactions
        × (b.success_count + b.failure_count + b.skipped_count ≡ b.total_count)
        × ((b.all_succeeded ≡ true) ↔ (b.failure_count + b.skipped_count ≡ 0))
  unfolding summarize
  summarize_lem ts =
      let e = run_from-Extended env c 0 ts nothing_done in
      let named = subst (λ rs. heads rs ≡ numbered 0 ts) (sym e.results) e.numbers in
      let total = run_from-counts env c ts ∙ length-results ts in
      let iff =
        ==_iff (length (keep (λ r. r.success) (run_from env c 0 ts nothing_done).results))
          (length ts) in
      (
        named,
        subst (λ rs. Respects env c [] ts rs) (sym e.results) e.respects,
        total,
        (
          λ all. omega (arith, total, iff.0 all),
          λ none_left. iff.1 (omega (arith, total, none_left)),
        ),
      )
