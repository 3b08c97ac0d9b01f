-- ===== src/Retry/Delay.antt =====
-- The bounds of the delays of ExponentialBackoffPolicy (src/retry/policies.ts).
use axionvera_sdk.Prelude.{
  ap, ◌∙◌, ℕ, suc, ◌+◌, ◌-◌, ◌*◌, ◌/◌, ◌^◌, ◌≤◌, ◌<◌, ◌≡◌, refl, min, arith,
}
use native.Mathlib.Nat.{div-lt_iff_lt-mul, le-div_iff_mul-le, mul-le-mul_left, mul-le-mul_right}
use axionvera_sdk.Retry.Policy.{
  Fraction, Jitter, no_jitter, full, equal, ExponentialBackoff, RetryContext, round_div,
  capped_delay, jittered, backoff_delay,
}

-- A fraction below one, as `Math.random` gives.
pub record IsUnit (r : Fraction) : Type 0 where
  pub below : r.num < r.den

round_div-le : (n d c : ℕ) → 0 < d → n ≤ c * d → round_div n d ≤ c
unfolding round_div
round_div-le n d c p h =
    let small : 2 * n + d < suc c * (2 * d) = omega arith in
    let lt : round_div n d < suc c = (div-lt_iff_lt-mul (omega arith)).1 small in omega (arith, lt)

round_div-ge : (n d c : ℕ) → 0 < d → c * d ≤ 2 * n → c ≤ 2 * round_div n d
unfolding round_div
round_div-ge n d c p h =
    let half = (c + 1) / 2 in
    let twice : half * 2 ≤ c + 1 = omega arith in
    let scaled : half * 2 * d ≤ (c + 1) * d = mul-le-mul_right d twice in
    let le : half ≤ round_div n d = (le-div_iff_mul-le (omega arith)).1 (omega (arith, scaled)) in
    omega (arith, le)

drawn-le : (r : Fraction) (capped : ℕ) → IsUnit r → r.num * capped ≤ capped * r.den
drawn-le r capped u =
    let le : capped * r.num ≤ capped * r.den = mul-le-mul_left capped (omega (arith, u.below)) in
    omega (arith, le)

jittered-le : (j : Jitter) (r : Fraction) (capped : ℕ) → IsUnit r → jittered j r capped ≤ capped
unfolding jittered
jittered-le no_jitter r capped u = omega arith
jittered-le full r capped u =
    round_div-le (r.num * capped) r.den capped (omega (arith, u.below)) (drawn-le r capped u)
jittered-le equal r capped u =
    round_div-le (capped * r.den + r.num * capped) (2 * r.den) capped (omega (arith, u.below))
      (omega (arith, drawn-le r capped u))

no_jitter-same : (r : Fraction) (capped : ℕ) → jittered no_jitter r capped ≡ capped
unfolding jittered
no_jitter-same r capped = refl

equal-ge : (r : Fraction) (capped : ℕ) → IsUnit r → capped ≤ 2 * jittered equal r capped
unfolding jittered
equal-ge r capped u =
    round_div-ge (capped * r.den + r.num * capped) (2 * r.den) capped (omega (arith, u.below))
      (omega arith)

-- With a draw below one, a delay is never more than the cap nor than what the backoff computes for the
-- attempt. Without jitter it is the smaller of the two, and with equal jitter at least half of that.
pub backoff_delay-bounds :
    (p : ExponentialBackoff) (c : RetryContext)
    → IsUnit (p.rng c.attempt)
    → let raw = p.base_delay_ms * p.factor ^ (c.attempt - 1) in
      (backoff_delay p c ≤ p.max_delay_ms)
      × (backoff_delay p c ≤ raw)
      × (p.jitter ≡ no_jitter → backoff_delay p c ≡ min p.max_delay_ms raw)
      × (p.jitter ≡ equal → min p.max_delay_ms raw ≤ 2 * backoff_delay p c)
unfolding backoff_delay capped_delay
backoff_delay-bounds p c u =
    let raw = p.base_delay_ms * p.factor ^ (c.attempt - 1) in
    let le = jittered-le p.jitter (p.rng c.attempt) (min p.max_delay_ms raw) u in
    (
      omega (arith, le),
      omega (arith, le),
      (λ e.
          ap (λ j. jittered j (p.rng c.attempt) (min p.max_delay_ms raw)) e
          ∙ no_jitter-same (p.rng c.attempt) (min p.max_delay_ms raw)),
      (λ e. rw e (equal-ge (p.rng c.attempt) (min p.max_delay_ms raw) u)),
    )
