-- ===== src/Retry/Tests.antt =====
-- Retries of concrete operations (src/retry/).
use axionvera_sdk.Prelude.{
  ℕ, ◌-◌, ◌*◌, ◌^◌, ◌≤◌, ◌≡◌, refl, min, true, false, if◌then◌else◌, ltb, none, some, [], ◌∷◌, ok,
  err, arith,
}
use axionvera_sdk.Retry.Error.{
  Thrown, sdk_error, js_error, value, is_retryable_error, error_type_name, has_retryable_status,
}
use axionvera_sdk.Retry.Policy.{
  RetryContext, equal, no_jitter, ExponentialBackoff, new_backoff, backoff_policy, backoff_delay,
  backoff_should_retry, capped_delay, jittered, round_div,
}
use axionvera_sdk.Retry.Delay.{backoff_delay-bounds}
use axionvera_sdk.Retry.Loop.{
  World, RetryOptions, Run, loop, round, after_failure, announce_and_sleep, notify, says_retry,
  hit_attempt_cap, within_budget, positive_part, event_of,
}

retries : Unit {0}
unfolding loop round after_failure announce_and_sleep notify says_retry hit_attempt_cap
    within_budget positive_part backoff_delay backoff_should_retry capped_delay jittered round_div
    new_backoff is_retryable_error error_type_name has_retryable_status
retries = tt

abbrev down : Thrown
down = sdk_error "NetworkError" none

abbrev denied : Thrown
denied = sdk_error "ValidationError" (some 503)

classes :
    (is_retryable_error down ≡ true)
    × (is_retryable_error denied ≡ false)
    × (is_retryable_error (js_error "Error" (some 429)) ≡ true)
    × (is_retryable_error (value "string" none) ≡ false)
unfolding retries
classes = (refl, refl, refl, refl)

-- A third is drawn at each attempt.
abbrev backoff : ExponentialBackoff
backoff = record {
  base_delay_ms = 100;
  factor = 3;
  max_delay_ms = 500;
  max_attempts = 4;
  jitter = equal;
  is_retryable = is_retryable_error;
  rng = λ k. record { num = 1; den = 3 };
}

abbrev third : RetryContext
third = record { attempt = 3; error = down; elapsed_ms = 30 }

third_delay : backoff_delay backoff third ≡ 333
unfolding retries
third_delay = refl

backoff_delay-bounds_example :
    let raw = 100 * 3 ^ (3 - 1) in
    (backoff_delay backoff third ≤ 500)
    × (backoff_delay backoff third ≤ raw)
    × (equal ≡ no_jitter → backoff_delay backoff third ≡ min 500 raw)
    × (equal ≡ equal → min 500 raw ≤ 2 * backoff_delay backoff third)
backoff_delay-bounds_example = backoff_delay-bounds backoff third (record { below = omega arith })

-- The third attempt succeeds.
abbrev flaky : World ℕ
flaky = record {
  fn = λ k. if ltb k 3 then err down else ok 7;
  elapsed_ms = λ k. k * 10;
  aborted = λ k. false;
  aborted_asleep = λ k. false;
}

abbrev budget : RetryOptions
budget = record {
  max_attempts = none;
  max_elapsed_ms = some 200;
  is_retryable = none;
  on_retry = none;
}

abbrev flaky_run : Run ℕ
flaky_run = record {
  outcome = ok 7;
  attempts = 3;
  events =
      event_of flaky (backoff_policy backoff) budget 1 down 67
      ∷ event_of flaky (backoff_policy backoff) budget 2 down 180
      ∷ [];
}
