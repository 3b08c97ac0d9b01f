-- ===== src/Reconnection/Tests.antt =====
-- A manager of three attempts (src/network/reconnectionManager.ts), run on concrete events.
use axionvera_sdk.Prelude.{ℕ, ◌*◌, ◌^◌, ◌<◌, ◌≡◌, refl, min, Option, none, some, List, [], ◌∷◌, map}
use axionvera_sdk.Reconnection.Manager.{
  connected, reconnecting, PartialConfig, Manager, new_manager, on_state_change, mark_connected,
  reset, schedule_reconnect, fires, rejects,
}
use axionvera_sdk.Reconnection.Steps.{
  IsIdle, IsWaiting, IsOrderly, Reach, here, next, schedules, timer_fires, call_rejects,
}
use axionvera_sdk.Reconnection.Orderly.{Reach-IsOrderly}
use axionvera_sdk.Reconnection.Outage.{outage, GaveUp, outage_cases}

abbrev three : Option PartialConfig
three = some (record {
  max_attempts = some 3;
  base_delay = some 100;
  max_delay = some 300;
  heartbeat_interval = none;
})

abbrev fresh : Manager
fresh = new_manager three

abbrev delays : Manager → List ℕ
delays m = map (λ t. t.delay) m.pending

delays_of_outage :
    map (λ k. delays (outage k fresh)) (0 ∷ 1 ∷ 2 ∷ 3 ∷ [])
    ≡ (100 ∷ []) ∷ (200 ∷ []) ∷ (300 ∷ []) ∷ [] ∷ []
unfolding new_manager schedule_reconnect fires rejects
delays_of_outage = refl

-- A second schedule forgets the handle of the first timer, which goes on after the connection is up.
twice : delays (mark_connected (schedule_reconnect (schedule_reconnect fresh))) ≡ 100 ∷ []
unfolding new_manager schedule_reconnect
twice = refl

-- A reset does not stop a call that runs: its failure schedules again.
reset_in_flight : (rejects (reset (fires 0 (schedule_reconnect fresh)))).state ≡ reconnecting
unfolding new_manager schedule_reconnect fires rejects
reset_in_flight = refl

told :
    map
      (λ c. c.state)
      (mark_connected (schedule_reconnect (on_state_change 7 (on_state_change 7 fresh)))).calls
    ≡ connected ∷ reconnecting ∷ []
unfolding new_manager schedule_reconnect on_state_change
told = refl

fresh-IsIdle : IsIdle fresh
unfolding new_manager
fresh-IsIdle = record { no_timer = refl; no_call = refl }

-- A first attempt fails, and the second timer is set.
abbrev once_failed : Manager
once_failed = rejects (fires 0 (schedule_reconnect fresh))

once_failed-Reach : Reach fresh once_failed
once_failed-Reach =
    next (next (next here (schedules _ fresh-IsIdle)) (timer_fires _ 0)) (call_rejects _)

Reach-IsOrderly_example : IsOrderly once_failed
Reach-IsOrderly_example = Reach-IsOrderly three once_failed once_failed-Reach

outage_cases_example :
    ((k : ℕ)
      → k < fresh.config.max_attempts
      → (w : IsWaiting (outage k fresh)) × (w.set_timer.delay
          ≡ min (fresh.config.base_delay * 2 ^ k) fresh.config.max_delay))
    × GaveUp fresh.config (outage fresh.config.max_attempts fresh)
unfolding new_manager
outage_cases_example = outage_cases fresh fresh-IsIdle refl
