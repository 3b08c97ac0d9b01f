-- ===== src/Reconnection/Steps.antt =====
-- The events that change a ReconnectionManager (src/network/reconnectionManager.ts), as a step relation: a client
-- schedules only where no timer is set and no `connect_fn` runs.
use axionvera_sdk.Prelude.{ℕ, ◌≤◌, ◌<◌, ◌≡◌, ◌⊎◌, some, [], ◌∷◌}
use axionvera_sdk.Reconnection.Manager.{
  reconnecting, Timer, Manager, on_state_change, remove_listener, mark_connected, mark_disconnected,
  reset, schedule_reconnect, fires, connects, rejects, delay_of,
}

-- No timer is set, and no call of `connect_fn` has not ended.
pub record IsIdle (m : Manager) : Type 0 where
  pub no_timer : m.pending ≡ []
  pub no_call : m.in_flight ≡ 0

pub data Step : Manager → Manager → Type 0 where
  schedules : (m : Manager) → IsIdle m → Step m (schedule_reconnect m)
  timer_fires : (m : Manager) (i : ℕ) → Step m (fires i m)
  call_resolves : (m : Manager) → Step m (connects m)
  call_rejects : (m : Manager) → Step m (rejects m)
  is_up : (m : Manager) → Step m (mark_connected m)
  is_down : (m : Manager) → Step m (mark_disconnected m)
  resets : (m : Manager) → Step m (reset m)
  subscribes : (m : Manager) (l : ℕ) → Step m (on_state_change l m)
  unsubscribes : (m : Manager) (l : ℕ) → Step m (remove_listener l m)

pub data Reach (m : Manager) : Manager → Type 0 where
  here : Reach m m
  next : {n o : Manager} → Reach m n → Step n o → Reach m o

-- One timer is set, the one whose handle is kept, and it waits for the delay of the number of attempts.
pub record IsWaiting (m : Manager) : Type 0 where
  pub set_timer : Timer
  pub only : m.pending ≡ set_timer ∷ []
  pub handle : m.timer ≡ some set_timer.id
  pub delayed : set_timer.delay ≡ delay_of m.config m.attempts
  pub left_over : m.attempts < m.config.max_attempts
  pub no_call : m.in_flight ≡ 0
  pub in_state : m.state ≡ reconnecting

-- At most one timer or call has not ended, and there are no more attempts than the configuration allows.
pub record IsOrderly (m : Manager) : Type 0 where
  pub waits : (m.pending ≡ []) ⊎ IsWaiting m
  pub at_most_one : m.in_flight ≤ 1
  pub bounded : m.attempts ≤ m.config.max_attempts
