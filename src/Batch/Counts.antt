-- ===== src/Batch/Counts.antt =====
-- The counts in the summary of BatchExecutor (src/batch/batchExecutor.ts).
use axionvera_sdk.Prelude.{
  ℕ, suc, ◌+◌, ◌<◌, ◌≡◌, refl, inl, inr, true, false, not, ◌&&◌, List, [], ◌∷◌, ◌++◌, any, keep,
  length, length-append, if◌then◌else◌, ◌==◌, is_empty, arith, All, All-append, Bool-cases,
}
use axionvera_sdk.Batch.Types.{Transaction, Config, TransactionResult}
use native.Mathlib.Nat.{add-zero}
use axionvera_sdk.Batch.Results.{execute_transaction-index}
use axionvera_sdk.Batch.Executor.{
  Env, refused, skipped_result, Progress, failed_before, unmet, skip, nothing_done,
  execute_transaction, stops, round, run_from,
}

-- How the three counts of the summary share out the results.
abbrev pub failures : {Sim : Type 0} → List ℕ → List (TransactionResult Sim) → ℕ
failures skipped rs = length (keep (λ r. not r.success && not (any (λ k. k == r.index) skipped)) rs)

abbrev pub successes : {Sim : Type 0} → List (TransactionResult Sim) → ℕ
successes rs = length (keep (λ r. r.success) rs)

record Counted {Sim : Type 0} (i : ℕ) (s : Progress Sim) : Type 0 where
  shares : successes s.results + failures s.skipped s.results + length s.skipped ≡ length s.results
  results_below : All (λ r. r.index < i) s.results
  skipped_below : All (λ k. k < i) s.skipped

any-append :
    (j i : ℕ) (ks : List ℕ)
    → any (λ k. k == j) (ks ++ i ∷ []) ≡ (if i == j then true else any (λ k. k == j) ks)
any-append j i [] = ground arith
any-append j i (k ∷ ks) = ground (arith, any-append j i ks)

not-any_of_below : (j : ℕ) (ks : List ℕ) → All (λ k. k < j) ks → any (λ k. k == j) ks ≡ false
not-any_of_below j [] h = refl
not-any_of_below j (k ∷ ks) (p, h) = ground (arith, not-any_of_below j ks h)

failures-skip :
    {Sim : Type 0} (i : ℕ) (ks : List ℕ) (rs : List (TransactionResult Sim))
    → All (λ r. r.index < i) rs
    → failures (ks ++ i ∷ []) rs ≡ failures ks rs
failures-skip i ks [] h = refl
failures-skip i ks (r ∷ rs) (p, h) =
    ground (arith, failures-skip i ks rs h, any-append r.index i ks)

All-below-suc : (i : ℕ) (ks : List ℕ) → All (λ k. k < i) ks → All (λ k. k < suc i) ks
All-below-suc i [] h = tt
All-below-suc i (k ∷ ks) (p, h) = (omega arith, All-below-suc i ks h)

All-index-suc :
    {Sim : Type 0} (i : ℕ) (rs : List (TransactionResult Sim))
    → All (λ r. r.index < i) rs
    → All (λ r. r.index < suc i) rs
All-index-suc i [] h = tt
All-index-suc i (r ∷ rs) (p, h) = (omega arith, All-index-suc i rs h)

successes-append :
    {Sim : Type 0} (rs : List (TransactionResult Sim)) (r : TransactionResult Sim)
    → successes (rs ++ r ∷ []) ≡ successes rs + (if r.success then 1 else 0)
successes-append [] r = ground arith
successes-append (q ∷ rs) r = ground (arith, successes-append rs r)

failures-append :
    {Sim : Type 0} (ks : List ℕ) (rs : List (TransactionResult Sim)) (r : TransactionResult Sim)
    → failures ks (rs ++ r ∷ [])
      ≡ failures ks rs + (if not r.success && not (any (λ k. k == r.index) ks) then 1 else 0)
failures-append ks [] r = ground arith
failures-append ks (q ∷ rs) r = ground (arith, failures-append ks rs r)

skip-Counted :
    {Op Sim : Type 0} (s : Progress Sim) (t : Transaction Op) (i : ℕ)
    → Counted i s
    → Counted (suc i) (skip s t i)
skip-Counted s t i k =
    let ks = s.skipped ++ i ∷ [] in
    record {
      shares = ground (
        arith,
        k.shares,
        successes-append s.results (skipped_result t i),
        failures-append ks s.results (skipped_result t i),
        failures-skip i s.skipped s.results k.results_below,
        any-append i i s.skipped,
        length-append s.skipped (i ∷ []),
        length-append s.results (skipped_result t i ∷ []),
      );
      results_below =
          All-append (λ r. r.index < suc i) s.results (skipped_result t i ∷ [])
            (All-index-suc i s.results k.results_below) (omega arith, tt);
      skipped_below =
          All-append (λ k. k < suc i) s.skipped (i ∷ []) (All-below-suc i s.skipped k.skipped_below)
            (omega arith, tt);
    }

settle-Counted :
    {Sim : Type 0} (s s' : Progress Sim) (r : TransactionResult Sim) (i : ℕ)
    → r.index ≡ i
    → s'.results ≡ s.results ++ r ∷ []
    → s'.skipped ≡ s.skipped
    → Counted i s
    → Counted (suc i) s'
settle-Counted s s' r i e p q k = record {
  shares =
      rw (p, q)
        (ground (
          arith,
          k.shares,
          successes-append s.results r,
          failures-append s.skipped s.results r,
          e,
          not-any_of_below i s.skipped k.skipped_below,
          length-append s.results (r ∷ []),
        ));
  results_below = rw p (
      All-append (λ r. r.index < suc i) s.results (r ∷ [])
        (All-index-suc i s.results k.results_below) (omega arith, tt));
  skipped_below = rw q (All-below-suc i s.skipped k.skipped_below);
}

module _ {Op Account Tx Sim : Type 0} (env : Env Op Account Tx Sim) (c : Config Account) where
  round-Counted :
      (s : Progress Sim) (t : Transaction Op) (i : ℕ)
      → Counted i s
      → Counted (suc i) (round env c s t i)
  unfolding round
  round-Counted s t i k = elim (Bool-cases (stops env c && failed_before s.results)) [
    | inl stop ↦ rw stop (skip-Counted s t i k)
    | inr go ↦ elim (Bool-cases (not (is_empty (unmet s.completed t)))) [
      | inl lacking ↦ rw (go, lacking) (settle-Counted s _ (refused t i _ _) i refl refl refl k)
      | inr ready ↦
          rw (go, ready)
            (settle-Counted s _ (execute_transaction env c t i) i
              (execute_transaction-index env c t i).0 refl refl k)
    ]
  ]

  run_from-Counted :
      (i : ℕ) (ts : List (Transaction Op)) (s : Progress Sim)
      → Counted i s
      → Counted (i + length ts) (run_from env c i ts s)
  unfolding run_from
  run_from-Counted i [] s k = record {
    shares = k.shares;
    results_below = rw add-zero k.results_below;
    skipped_below = rw add-zero k.skipped_below;
  }
  run_from-Counted i (t ∷ ts) s k =
      let rest = run_from-Counted (suc i) ts (round env c s t i) (round-Counted s t i k) in
      let e : i + suc (length ts) ≡ suc i + length ts = omega arith in rw e rest

  pub run_from-counts :
      (ts : List (Transaction Op))
      → let s = run_from env c 0 ts nothing_done in
        successes s.results + failures s.skipped s.results + length s.skipped ≡ length s.results
  run_from-counts ts =
      (run_from-Counted 0 ts nothing_done
        (record { shares = refl; results_below = tt; skipped_below = tt })).shares
