-- ===== src/Retry/Loop.antt =====
-- src/retry/withRetry.ts: withRetry. What the world does is a parameter, by the number of the attempt: what
-- `fn` returns or throws, the time since the start when it has thrown, and whether the signal has fired at
-- the head of the loop or before the end of the sleep.
use axionvera_sdk.Prelude.{
  ℕ, zero, suc, ◌+◌, ◌-◌, min, String, Bool, false, not, ◌&&◌, ◌||◌, Option, none, some, List, [],
  ◌∷◌, ◌++◌, if◌then◌else◌, leb, or_else, ℤ, pos, negsuc, Outcome, ok, err,
}
use axionvera_sdk.Retry.Error.{Thrown, is_retryable_error, error_type_name}
use axionvera_sdk.Retry.Policy.{RetryContext, RetryPolicy}

pub record DiagnosticEvent : Type 0 where
  pub attempt : ℕ
  pub delay_ms : ℕ
  pub error : Thrown
  pub error_type : String
  pub elapsed_ms : ℕ

-- `on_retry` may throw.
pub record RetryOptions : Type 0 where
  pub max_attempts : Option ℕ
  pub max_elapsed_ms : Option ℕ
  pub is_retryable : Option (Thrown → Bool)
  pub on_retry : Option (DiagnosticEvent → Outcome Thrown (Unit {0}))

pub record World (A : Type 0) : Type 0 where
  pub fn : ℕ → Outcome Thrown A
  pub elapsed_ms : ℕ → ℕ
  pub aborted : ℕ → Bool
  pub aborted_asleep : ℕ → Bool

-- RetryAbortedError, the error of the last attempt (or of `onRetry`), and the TimeoutError with the error.
pub data Rejection : Type 0 where
  retry_aborted : Rejection
  rejected : Thrown → Rejection
  budget_exhausted : Thrown → Rejection

-- One round of the loop ends it, or goes on after an event.
pub data Round (A : Type 0) : Type 0 where
  done : List DiagnosticEvent → Outcome Rejection A → Round A
  again : DiagnosticEvent → Round A

pub record Run (A : Type 0) : Type 0 where
  pub outcome : Outcome Rejection A
  pub attempts : ℕ
  pub events : List DiagnosticEvent

-- `Math.max(0, delay)`
unfoldable pub positive_part : ℤ → ℕ
positive_part (pos n) = n
positive_part (negsuc n) = 0

-- `typeof maxAttempts === 'number' && attempt >= maxAttempts`
unfoldable pub hit_attempt_cap : Option ℕ → ℕ → Bool
hit_attempt_cap none attempt = false
hit_attempt_cap (some m) attempt = leb m attempt

-- The delay within the time budget, or `none` if that is used up.
unfoldable pub within_budget : Option ℕ → ℕ → ℕ → Option ℕ
within_budget none elapsed delay = some delay
within_budget (some budget) elapsed delay =
    if leb budget elapsed then none else some (min delay (budget - elapsed))

module _ {A : Type 0} (world : World A) (policy : RetryPolicy) (options : RetryOptions) where
  abbrev pub context_of : ℕ → Thrown → RetryContext
  context_of attempt e = record {
    attempt = attempt;
    error = e;
    elapsed_ms = world.elapsed_ms attempt;
  }

  unfoldable pub says_retry : ℕ → Thrown → Bool
  says_retry attempt e =
      policy.should_retry (context_of attempt e)
      && or_else options.is_retryable is_retryable_error e

  abbrev pub event_of : ℕ → Thrown → ℕ → DiagnosticEvent
  event_of attempt e delay = record {
    attempt = attempt;
    delay_ms = delay;
    error = e;
    error_type = error_type_name e;
    elapsed_ms = world.elapsed_ms attempt;
  }

  -- `onRetry?.(event)`
  unfoldable pub notify : DiagnosticEvent → Outcome Thrown (Unit {0})
  notify ev = elim options.on_retry [ none ↦ ok tt | some f ↦ f ev ]

  -- The end of the `catch` block, from the call of `onRetry` on.
  unfoldable pub announce_and_sleep : ℕ → DiagnosticEvent → Round A
  unfolding notify
  announce_and_sleep attempt ev = elim (notify ev) [
    | err e ↦ done (ev ∷ []) (err (rejected e))
    | ok _ ↦ if world.aborted_asleep attempt then done (ev ∷ []) (err retry_aborted) else again ev
  ]

  -- The `catch` block.
  unfoldable pub after_failure : ℕ → Thrown → Round A
  unfolding hit_attempt_cap says_retry positive_part within_budget announce_and_sleep
  after_failure attempt e =
      if hit_attempt_cap options.max_attempts attempt || not (says_retry attempt e)
      then done [] (err (rejected e))
      else elim (within_budget options.max_elapsed_ms (world.elapsed_ms attempt)
          (positive_part (policy.next_delay_ms (context_of attempt e)))) [
            | none ↦ done [] (err (budget_exhausted e))
            | some delay ↦ announce_and_sleep attempt (event_of attempt e delay)
          ]

  unfoldable pub round : ℕ → Round A
  unfolding after_failure
  round attempt =
      if world.aborted attempt
      then done [] (err retry_aborted)
      else elim (world.fn attempt) [ ok a ↦ done [] (ok a) | err e ↦ after_failure attempt e ]

  -- The loop from an attempt on, with the events so far. `none` is that the fuel, one unit for each
  -- attempt, ran out.
  unfoldable pub loop : ℕ → ℕ → List DiagnosticEvent → Option (Run A)
  loop zero attempt evs = none
  loop (suc f) attempt evs = elim (round attempt) [
    | done more o ↦ some (record { outcome = o; attempts = attempt; events = evs ++ more })
    | again ev ↦ loop f (attempt + 1) (evs ++ ev ∷ [])
  ]

  abbrev pub with_retry : ℕ → Option (Run A)
  with_retry f = loop f 1 []
