-- ===== src/Retry/Ends.antt =====
-- How withRetry ends (src/retry/withRetry.ts), and that it does.
use axionvera_sdk.Prelude.{ℕ, ◌+◌, ◌≤◌, ◌≡◌, ◌⊎◌, false, some, List, [], ◌∷◌, ◌++◌, length, arith}
use axionvera_sdk.Retry.Policy.{
  RetryContext, RetryPolicy, ExponentialBackoff, FixedDelay, backoff_policy, fixed_policy,
  backoff_should_retry, fixed_should_retry,
}
use axionvera_sdk.Retry.Loop.{DiagnosticEvent, RetryOptions, World, Run}
use axionvera_sdk.Retry.Rounds.{IsRetried, Ends}

module _ {A : Type 0} (world : World A) (policy : RetryPolicy) (options : RetryOptions) where
  -- The events of attempts `k`, `k + 1`, … , each of which is retried.
  abbrev pub AreRetried : ℕ → List DiagnosticEvent → Type 0
  AreRetried k [] = Unit
  AreRetried k (ev ∷ evs) = IsRetried world policy options k ev × AreRetried (k + 1) evs

  -- A run from attempt `k`: attempts that are retried, each with its event, and then one that ends it.
  pub record Finished (k : ℕ) (evs : List DiagnosticEvent) (r : Run A) : Type 0 where
    pub retried : List DiagnosticEvent
    pub last : List DiagnosticEvent
    pub events : r.events ≡ evs ++ (retried ++ last)
    pub retries : AreRetried k retried
    pub attempts : r.attempts ≡ k + length retried
    pub ends : Ends world policy options r.attempts r.outcome

  -- Either the options or the policy allow at most `m` attempts.
  abbrev pub IsCapped : ℕ → Type 0
  IsCapped m =
      (options.max_attempts ≡ some m)
      ⊎ ((c : RetryContext) → m ≤ c.attempt → policy.should_retry c ≡ false)

-- Both policies of the package allow at most their number of attempts.
pub backoff-stops :
    (p : ExponentialBackoff) (c : RetryContext)
    → p.max_attempts ≤ c.attempt
    → (backoff_policy p).should_retry c ≡ false
unfolding backoff_should_retry
backoff-stops p c h = ground arith

pub fixed-stops :
    (p : FixedDelay) (c : RetryContext)
    → p.max_attempts ≤ c.attempt
    → (fixed_policy p).should_retry c ≡ false
unfolding fixed_should_retry
fixed-stops p c h = ground arith
