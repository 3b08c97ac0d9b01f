-- ===== src/Retry/Rounds.antt =====
-- One round of withRetry (src/retry/withRetry.ts).
use axionvera_sdk.Prelude.{
  ℕ, ◌+◌, ◌≤◌, ◌≡◌, refl, ◌⊎◌, inl, inr, Bool, true, false, not, ◌||◌, Option, none, some, [],
  Outcome, ok, err, arith, Bool-cases, Option-cases, Outcome-cases,
}
use axionvera_sdk.Retry.Error.{Thrown}
use axionvera_sdk.Retry.Policy.{RetryPolicy}
use axionvera_sdk.Retry.Loop.{
  DiagnosticEvent, RetryOptions, World, Rejection, retry_aborted, rejected, budget_exhausted, Round,
  done, again, positive_part, hit_attempt_cap, within_budget, says_retry, event_of, context_of,
  notify, announce_and_sleep, after_failure, round,
}

within_budget-le :
    (o : Option ℕ) (elapsed delay d b : ℕ)
    → within_budget o elapsed delay ≡ some d
    → (d ≤ delay) × (o ≡ some b → elapsed + d ≤ b)
unfolding within_budget
within_budget-le none elapsed delay d b e =
    ((let p : delay ≡ d = cc e in omega (arith, p)), λ h. cc)
within_budget-le (some b') elapsed delay d b e = ground arith

within_budget-none :
    (o : Option ℕ) (elapsed delay : ℕ)
    → within_budget o elapsed delay ≡ none
    → (b : ℕ) × (o ≡ some b) × (b ≤ elapsed)
unfolding within_budget
within_budget-none none elapsed delay e = cc
within_budget-none (some b) elapsed delay e = (b, refl, ground arith)

module _ {A : Type 0} (world : World A) (policy : RetryPolicy) (options : RetryOptions) where
  -- Attempt `k` failed with an error that is retried, after the sleep of its event.
  pub record IsRetried (k : ℕ) (ev : DiagnosticEvent) : Type 0 where
    pub error : Thrown
    pub delay : ℕ
    pub threw : world.fn k ≡ err error
    pub retried : says_retry world policy options k error ≡ true
    pub capless : hit_attempt_cap options.max_attempts k ≡ false
    pub event : ev ≡ event_of world policy options k error delay
    pub wanted :
        delay ≤ positive_part (policy.next_delay_ms (context_of world policy options k error))
    pub budgeted : (b : ℕ) → options.max_elapsed_ms ≡ some b → world.elapsed_ms k + delay ≤ b

  -- Why the loop ends at attempt `k` with an outcome.
  abbrev pub Ends : ℕ → Outcome Rejection A → Type 0
  Ends k (ok a) = world.fn k ≡ ok a
  Ends k (err retry_aborted) = (world.aborted k ≡ true) ⊎ (world.aborted_asleep k ≡ true)
  Ends k (err (rejected e)) =
      ((world.fn k ≡ err e)
        × ((hit_attempt_cap options.max_attempts k ≡ true)
            ⊎ (says_retry world policy options k e ≡ false)))
      ⊎ ((ev : DiagnosticEvent) × (notify world policy options ev ≡ err e))
  Ends k (err (budget_exhausted e)) =
      (world.fn k ≡ err e)
      × ((b : ℕ) × (options.max_elapsed_ms ≡ some b) × (b ≤ world.elapsed_ms k))

  -- What a round says of its attempt.
  abbrev pub Says : ℕ → Round A → Type 0
  Says k (done more o) = Ends k o
  Says k (again ev) = IsRetried k ev

  announce_and_sleep-Says :
      (k : ℕ) (ev : DiagnosticEvent)
      → IsRetried k ev
      → Says k (announce_and_sleep world policy options k ev)
  unfolding announce_and_sleep
  announce_and_sleep-Says k ev h = elim (Outcome-cases (notify world policy options ev)) [
    | inl (e, thrown) ↦ rw (thrown, announce_and_sleep) (inr (ev, thrown))
    | inr (_, told) ↦ elim (Bool-cases (world.aborted_asleep k)) [
      | inl stop ↦ rw (told, stop, announce_and_sleep) (inr stop)
      | inr rest ↦ rw (told, rest, announce_and_sleep) h
    ]
  ]

  gives_up : ℕ → Thrown → Bool
  gives_up k e = hit_attempt_cap options.max_attempts k || not (says_retry world policy options k e)

  gives_up-why :
      (k : ℕ) (e : Thrown)
      → gives_up k e ≡ true
      → (hit_attempt_cap options.max_attempts k ≡ true)
        ⊎ (says_retry world policy options k e ≡ false)
  unfolding gives_up
  gives_up-why k e h = ground arith

  goes_on-why :
      (k : ℕ) (e : Thrown)
      → gives_up k e ≡ false
      → (hit_attempt_cap options.max_attempts k ≡ false)
        × (says_retry world policy options k e ≡ true)
  unfolding gives_up
  goes_on-why k e h = ground arith

  wanted_delay : ℕ → Thrown → ℕ
  wanted_delay k e = positive_part (policy.next_delay_ms (context_of world policy options k e))

  after_failure-rejects :
      (k : ℕ) (e : Thrown)
      → gives_up k e ≡ true
      → after_failure world policy options k e ≡ done [] (err (rejected e))
  unfolding gives_up after_failure
  after_failure-rejects k e h = rw (h, after_failure) refl

  after_failure-exhausted :
      (k : ℕ) (e : Thrown)
      → gives_up k e ≡ false
      → within_budget options.max_elapsed_ms (world.elapsed_ms k) (wanted_delay k e) ≡ none
      → after_failure world policy options k e ≡ done [] (err (budget_exhausted e))
  unfolding gives_up wanted_delay after_failure
  after_failure-exhausted k e h out = rw (h, out, after_failure) refl

  after_failure-waits :
      (k : ℕ) (e : Thrown) (d : ℕ)
      → gives_up k e ≡ false
      → within_budget options.max_elapsed_ms (world.elapsed_ms k) (wanted_delay k e) ≡ some d
      → after_failure world policy options k e
        ≡ announce_and_sleep world policy options k (event_of world policy options k e d)
  unfolding gives_up wanted_delay after_failure announce_and_sleep
  after_failure-waits k e d h left = rw (h, left, after_failure) refl

  after_failure-Says :
      (k : ℕ) (e : Thrown) → world.fn k ≡ err e → Says k (after_failure world policy options k e)
  unfolding wanted_delay
  after_failure-Says k e threw = elim (Bool-cases (gives_up k e)) [
    | inl stop ↦ rw (after_failure-rejects k e stop) (inl (threw, gives_up-why k e stop))
    | inr on ↦
        let budget = within_budget options.max_elapsed_ms (world.elapsed_ms k) (wanted_delay k e) in
        elim (Option-cases budget) [
          | inl out ↦ rw (after_failure-exhausted k e on out) (threw, within_budget-none _ _ _ out)
          | inr (d, left) ↦ rw (after_failure-waits k e d on left) (
              announce_and_sleep-Says k (event_of world policy options k e d) (record {
                error = e;
                delay = d;
                threw = threw;
                retried = (goes_on-why k e on).1;
                capless = (goes_on-why k e on).0;
                event = refl;
                wanted = (within_budget-le _ _ _ d 0 left).0;
                budgeted = λ b. (within_budget-le _ _ _ d b left).1;
              }))
        ]
  ]

  pub round-Says : (k : ℕ) → Says k (round world policy options k)
  unfolding round
  round-Says k = elim (Bool-cases (world.aborted k)) [
    | inl stop ↦ rw (stop, round) (inl stop)
    | inr on ↦ elim (Outcome-cases (world.fn k)) [
      | inl (e, threw) ↦ rw (on, threw, round) (after_failure-Says k e threw)
      | inr (a, gave) ↦ rw (on, gave, round) gave
    ]
  ]
