-- ===== src/Reconnection/Outage.antt =====
-- A ReconnectionManager (src/network/reconnectionManager.ts) while no connection succeeds.
use axionvera_sdk.Prelude.{
  ℕ, zero, suc, ◌*◌, ◌^◌, ◌<◌, ◌≡◌, refl, sym, ap, ◌∙◌, subst, Option, none, some, [], arith, min,
}
use axionvera_sdk.Reconnection.Manager.{
  disconnected, Config, Manager, schedule_reconnect, fires, rejects, delay_of,
}
use axionvera_sdk.Reconnection.Steps.{IsIdle, IsWaiting}
use axionvera_sdk.Reconnection.Orderly.{
  schedule_over, schedule_on, schedule-IsWaiting, fires_only, rejects_some,
}

-- The timer fires, and the connection fails.
abbrev pub fire : Option ℕ → Manager → Manager
fire none m = m
fire (some i) m = fires i m

abbrev pub fail_once : Manager → Manager
fail_once m = rejects (fire m.timer m)

-- So many failures after a client has scheduled.
abbrev pub outage : ℕ → Manager → Manager
outage zero m = schedule_reconnect m
outage (suc k) m = fail_once (outage k m)

-- The state in which `connect_fn` has failed, and the next timer is not set yet.
abbrev failed : Manager → Manager
failed m = record m { pending = []; attempts = suc m.attempts; in_flight = 0 }

fail_once-schedules : (m : Manager) → IsWaiting m → fail_once m ≡ schedule_reconnect (failed m)
fail_once-schedules m h =
    ap (λ o. rejects (fire o m)) h.handle
    ∙ ap rejects (fires_only h.set_timer.id m h refl)
    ∙ rejects_some
        (record m { pending = []; attempts = suc m.attempts; in_flight = suc m.in_flight })
        (omega arith)
    ∙ ap
        (λ n.
          schedule_reconnect (record m { pending = []; attempts = suc m.attempts; in_flight = n }))
        (omega (arith, h.no_call))

schedule-keeps :
    (m : Manager)
    → m.attempts < m.config.max_attempts
    → ((schedule_reconnect m).config ≡ m.config) × ((schedule_reconnect m).attempts ≡ m.attempts)
schedule-keeps m k =
    let step = schedule_on m (ground arith) in (ap (λ n. n.config) step, ap (λ n. n.attempts) step)

-- A manager with a configuration that waits for its next attempt, after so many.
pub record Waits (c : Config) (tried : ℕ) (m : Manager) : Type 0 where
  pub waiting : IsWaiting m
  pub tries : m.attempts ≡ tried
  pub same : m.config ≡ c

pub record GaveUp (c : Config) (m : Manager) : Type 0 where
  pub idle : IsIdle m
  pub in_state : m.state ≡ disconnected
  pub all_tried : m.attempts ≡ c.max_attempts

schedule-Waits :
    (m : Manager)
    → IsIdle m
    → m.attempts < m.config.max_attempts
    → Waits m.config m.attempts (schedule_reconnect m)
schedule-Waits m h k =
    let (same, tries) = schedule-keeps m k in
    record { waiting = schedule-IsWaiting m h k; tries = tries; same = same }

schedule-GaveUp :
    (m : Manager)
    → IsIdle m
    → m.attempts ≡ m.config.max_attempts
    → GaveUp m.config (schedule_reconnect m)
schedule-GaveUp m h k = subst (GaveUp m.config) (sym (schedule_over m (ground arith))) (record {
  idle = record { no_timer = h.no_timer; no_call = h.no_call };
  in_state = refl;
  all_tried = k;
})

fail_once-Waits :
    (c : Config) (k : ℕ) (m : Manager)
    → Waits c k m
    → suc k < c.max_attempts
    → Waits c (suc k) (fail_once m)
fail_once-Waits c k m w h =
    let more : suc m.attempts < m.config.max_attempts =
      omega (arith, w.tries, ap (λ d. d.max_attempts) w.same) in
    let again = schedule-Waits (failed m) (record { no_timer = refl; no_call = refl }) more in
    record {
      waiting = subst IsWaiting (sym (fail_once-schedules m w.waiting)) again.waiting;
      tries = ap (λ n. n.attempts) (fail_once-schedules m w.waiting) ∙ again.tries ∙ ap suc w.tries;
      same = ap (λ n. n.config) (fail_once-schedules m w.waiting) ∙ again.same ∙ w.same;
    }

fail_once-GaveUp :
    (c : Config) (k : ℕ) (m : Manager)
    → Waits c k m
    → suc k ≡ c.max_attempts
    → GaveUp c (fail_once m)
fail_once-GaveUp c k m w h =
    let last : suc m.attempts ≡ m.config.max_attempts =
      omega (arith, w.tries, ap (λ d. d.max_attempts) w.same) in
    subst (GaveUp c) (sym (fail_once-schedules m w.waiting)) (
      subst (λ d. GaveUp d (schedule_reconnect (failed m))) w.same
        (schedule-GaveUp (failed m) (record { no_timer = refl; no_call = refl }) last))

module _ (m : Manager) (idle : IsIdle m) (fresh : m.attempts ≡ 0) where
  outage-Waits : (k : ℕ) → k < m.config.max_attempts → Waits m.config k (outage k m)
  outage-Waits zero h =
      subst (λ n. Waits m.config n (schedule_reconnect m)) fresh
        (schedule-Waits m idle (omega (arith, fresh)))
  outage-Waits (suc k) h = fail_once-Waits m.config k (outage k m) (outage-Waits k (omega arith)) h

  outage-GaveUp : (k : ℕ) → k ≡ m.config.max_attempts → GaveUp m.config (outage k m)
  outage-GaveUp zero h = schedule-GaveUp m idle (fresh ∙ h)
  outage-GaveUp (suc k) h =
      fail_once-GaveUp m.config k (outage k m) (outage-Waits k (omega arith)) h

-- While every connection fails, an idle manager whose attempts are at zero waits for its next attempt after each
-- failure, as long as attempts are left, each time for twice the delay up to the greatest one; after as many
-- failures as there are attempts it is disconnected, and no timer is set and no call runs.
pub outage_cases :
    (m : Manager)
    → IsIdle m
    → m.attempts ≡ 0
    → ((k : ℕ)
        → k < m.config.max_attempts
        → (w : IsWaiting (outage k m)) × (w.set_timer.delay
            ≡ min (m.config.base_delay * 2 ^ k) m.config.max_delay))
      × GaveUp m.config (outage m.config.max_attempts m)
outage_cases m idle fresh = (
  (λ k h.
      let w = outage-Waits m idle fresh k h in
      (
        w.waiting,
        w.waiting.delayed
            ∙ ap (λ n. delay_of (outage k m).config n) w.tries
            ∙ ap (λ c. delay_of c k) w.same,
      )),
  outage-GaveUp m idle fresh m.config.max_attempts refl,
)
