-- ===== src/Retry/Policy.antt =====
-- src/retry/types.ts and src/retry/policies.ts. Delays, factors and attempts are natural numbers, and the
-- arithmetic of the source is exact; `rng` gives a fraction, by the attempt for which it is drawn.
use axionvera_sdk.Prelude.{
  ℕ, ◌+◌, ◌-◌, ◌*◌, ◌/◌, ◌^◌, min, Bool, false, ◌&&◌, Option, if◌then◌else◌, leb, ltb, or_else, ℤ,
  pos,
}
use axionvera_sdk.Retry.Error.{Thrown, is_retryable_error}

pub record RetryContext : Type 0 where
  pub attempt : ℕ
  pub error : Thrown
  pub elapsed_ms : ℕ

pub record RetryPolicy : Type 0 where
  pub should_retry : RetryContext → Bool
  pub next_delay_ms : RetryContext → ℤ

pub data Jitter : Type 0 where
  no_jitter full equal : Jitter

pub record Fraction : Type 0 where
  pub num : ℕ
  pub den : ℕ

pub record BackoffOptions : Type 0 where
  pub base_delay_ms : Option ℕ
  pub factor : Option ℕ
  pub max_delay_ms : Option ℕ
  pub max_attempts : Option ℕ
  pub jitter : Option Jitter
  pub is_retryable : Option (Thrown → Bool)

pub record ExponentialBackoff : Type 0 where
  pub base_delay_ms : ℕ
  pub factor : ℕ
  pub max_delay_ms : ℕ
  pub max_attempts : ℕ
  pub jitter : Jitter
  pub is_retryable : Thrown → Bool
  pub rng : ℕ → Fraction

unfoldable pub new_backoff : BackoffOptions → (ℕ → Fraction) → ExponentialBackoff
new_backoff o rng = record {
  base_delay_ms = or_else o.base_delay_ms 200;
  factor = or_else o.factor 2;
  max_delay_ms = or_else o.max_delay_ms 5000;
  max_attempts = or_else o.max_attempts 3;
  jitter = or_else o.jitter full;
  is_retryable = or_else o.is_retryable is_retryable_error;
  rng = rng;
}

-- `Math.round(n / d)`: a half is rounded up.
unfoldable pub round_div : ℕ → ℕ → ℕ
round_div n d = (2 * n + d) / (2 * d)

unfoldable pub capped_delay : ExponentialBackoff → ℕ → ℕ
capped_delay p attempt = min p.max_delay_ms (p.base_delay_ms * p.factor ^ (attempt - 1))

-- The `switch` on the jitter, for a delay that is capped.
unfoldable pub jittered : Jitter → Fraction → ℕ → ℕ
unfolding round_div
jittered no_jitter r capped = capped
jittered equal r capped = round_div (capped * r.den + r.num * capped) (2 * r.den)
jittered full r capped = round_div (r.num * capped) r.den

unfoldable pub backoff_should_retry : ExponentialBackoff → RetryContext → Bool
backoff_should_retry p c = if leb p.max_attempts c.attempt then false else p.is_retryable c.error

unfoldable pub backoff_delay : ExponentialBackoff → RetryContext → ℕ
unfolding capped_delay jittered
backoff_delay p c = jittered p.jitter (p.rng c.attempt) (capped_delay p c.attempt)

abbrev pub backoff_policy : ExponentialBackoff → RetryPolicy
backoff_policy p = record {
  should_retry = backoff_should_retry p;
  next_delay_ms = λ c. pos (backoff_delay p c);
}

pub record FixedDelay : Type 0 where
  pub delay_ms : ℕ
  pub max_attempts : ℕ
  pub is_retryable : Thrown → Bool

unfoldable pub new_fixed : Option ℕ → Option ℕ → Option (Thrown → Bool) → FixedDelay
new_fixed delay attempts retryable = record {
  delay_ms = or_else delay 200;
  max_attempts = or_else attempts 3;
  is_retryable = or_else retryable is_retryable_error;
}

unfoldable pub fixed_should_retry : FixedDelay → RetryContext → Bool
fixed_should_retry p c = ltb c.attempt p.max_attempts && p.is_retryable c.error

abbrev pub fixed_policy : FixedDelay → RetryPolicy
fixed_policy p = record { should_retry = fixed_should_retry p; next_delay_ms = λ c. pos p.delay_ms }
