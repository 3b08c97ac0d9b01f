-- ===== src/Reconnection/Manager.antt =====
-- src/network/reconnectionManager.ts: ReconnectionManager. The timers of the runtime that have not fired are a part of
-- the state, and so is the number of connections that are being tried; `connect_fn` itself is its end, an event.
use axionvera_sdk.Prelude.{
  ℕ, suc, ◌-◌, ◌*◌, ◌^◌, Bool, true, false, not, Option, none, some, List, [], ◌∷◌, ◌++◌, keep, any,
  if◌then◌else◌, or_else, ◌==◌, leb, min,
}

pub data ConnectionState : Type 0 where
  connected connecting disconnected reconnecting : ConnectionState

pub record PartialConfig : Type 0 where
  pub max_attempts : Option ℕ
  pub base_delay : Option ℕ
  pub max_delay : Option ℕ
  pub heartbeat_interval : Option ℕ

pub record Config : Type 0 where
  pub max_attempts : ℕ
  pub base_delay : ℕ
  pub max_delay : ℕ
  pub heartbeat_interval : ℕ

abbrev pub default_reconnection_config : Config
default_reconnection_config = record {
  max_attempts = 10;
  base_delay = 1000;
  max_delay = 30000;
  heartbeat_interval = 30000;
}

-- A call of a listener.
pub record Call : Type 0 where
  pub listener : ℕ
  pub state : ConnectionState
  pub attempt : Option ℕ

pub record Timer : Type 0 where
  pub id : ℕ
  pub delay : ℕ

-- `timer` is the handle that is kept, `pending` are the timers that are set, `in_flight` counts the calls of `connect_fn`
-- that have not ended, and `calls` are those of the listeners, the last one first.
pub record Manager : Type 0 where
  pub config : Config
  pub state : ConnectionState
  pub attempts : ℕ
  pub timer : Option ℕ
  pub listeners : List ℕ
  pub pending : List Timer
  pub next_timer : ℕ
  pub in_flight : ℕ
  pub calls : List Call

-- `{ ...DEFAULT_RECONNECTION_CONFIG, ...config }`
abbrev pub with_defaults : PartialConfig → Config
with_defaults c = record {
  max_attempts = or_else c.max_attempts default_reconnection_config.max_attempts;
  base_delay = or_else c.base_delay default_reconnection_config.base_delay;
  max_delay = or_else c.max_delay default_reconnection_config.max_delay;
  heartbeat_interval = or_else c.heartbeat_interval default_reconnection_config.heartbeat_interval;
}

abbrev pub no_config : PartialConfig
no_config = record {
  max_attempts = none;
  base_delay = none;
  max_delay = none;
  heartbeat_interval = none;
}

unfoldable pub new_manager : Option PartialConfig → Manager
new_manager c = record {
  config = with_defaults (or_else c no_config);
  state = disconnected;
  attempts = 0;
  timer = none;
  listeners = [];
  pending = [];
  next_timer = 0;
  in_flight = 0;
  calls = [];
}

abbrev pub get_state : Manager → ConnectionState
get_state m = m.state

abbrev pub is_connected : Manager → Bool
is_connected m = elim m.state [
  | connected ↦ true
  | connecting ↦ false
  | disconnected ↦ false
  | reconnecting ↦ false
]

-- A `Set` keeps a listener once.
unfoldable pub on_state_change : ℕ → Manager → Manager
on_state_change l m =
    if any (λ k. k == l) m.listeners then m else record m { listeners = m.listeners ++ l ∷ [] }

unfoldable pub remove_listener : ℕ → Manager → Manager
remove_listener l m = record m { listeners = keep (λ k. not (k == l)) m.listeners }

abbrev pub notify : ConnectionState → Option ℕ → List ℕ → List Call → List Call
notify state attempt [] calls = calls
notify state attempt (l ∷ ls) calls =
    notify state attempt ls (record { listener = l; state = state; attempt = attempt } ∷ calls)

abbrev pub transition : ConnectionState → Option ℕ → Manager → Manager
transition state attempt m = record m {
  state = state;
  calls = notify state attempt m.listeners m.calls;
}

-- `clearTimeout`, which does nothing to a timer that has fired.
abbrev pub without_timer : Option ℕ → List Timer → List Timer
without_timer none ts = ts
without_timer (some i) ts = keep (λ t. not (t.id == i)) ts

abbrev pub clear_timer : Manager → Manager
clear_timer m = record m { timer = none; pending = without_timer m.timer m.pending }

abbrev pub mark_connected : Manager → Manager
mark_connected m = transition connected none (clear_timer (record m { attempts = 0 }))

abbrev pub mark_disconnected : Manager → Manager
mark_disconnected m = transition disconnected none (clear_timer m)

abbrev pub reset : Manager → Manager
reset m = transition disconnected none (clear_timer (record m { attempts = 0 }))

abbrev pub delay_of : Config → ℕ → ℕ
delay_of c attempts = min (c.base_delay * 2 ^ attempts) c.max_delay

-- `this.timer = setTimeout(…, delay)`
abbrev pub set_timer : ℕ → Manager → Manager
set_timer delay m = record m {
  timer = some m.next_timer;
  pending = m.pending ++ record { id = m.next_timer; delay = delay } ∷ [];
  next_timer = suc m.next_timer;
}

unfoldable pub schedule_reconnect : Manager → Manager
schedule_reconnect m =
    if leb m.config.max_attempts m.attempts
    then transition disconnected none m
    else set_timer (delay_of m.config m.attempts)
        (transition reconnecting (some (suc m.attempts)) m)

-- A timer that is set fires, and `connect_fn` is called.
unfoldable pub fires : ℕ → Manager → Manager
fires i m =
    if any (λ t. t.id == i) m.pending
    then record m {
      pending = keep (λ t. not (t.id == i)) m.pending;
      attempts = suc m.attempts;
      in_flight = suc m.in_flight;
    }
    else m

-- A call of `connect_fn` resolves.
unfoldable pub connects : Manager → Manager
connects m = record m { in_flight = m.in_flight - 1 }

-- A call of `connect_fn` rejects; without one nothing can.
unfoldable pub rejects : Manager → Manager
rejects m =
    if m.in_flight == 0 then m else schedule_reconnect (record m { in_flight = m.in_flight - 1 })
