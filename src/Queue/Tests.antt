-- ===== src/Queue/Tests.antt =====
-- A concurrency queue on concrete requests (src/utils/concurrencyQueue.ts).
use axionvera_sdk.Prelude.{ℕ, ◌≤◌, ◌≡◌, refl, inl, inr, String, true, false, none, [], ◌∷◌, arith}
use axionvera_sdk.Queue.State.{
  Settings, Request, State, new_queue, with_settings, execute, finish, timeout_fires,
  throttle_fires, process_queue, start_requests, start, clear_timer, remove_first,
  remove_from_queue, clear_queue, cancel_all, destroy, update_config, timed_out, finished,
  cancelled,
}
use axionvera_sdk.Queue.Process.{Started, process_queue-Started}
use axionvera_sdk.Queue.Steps.{Step, submits, finishes, Reach, here, next}
use axionvera_sdk.Queue.Settled.{Accounted, Reach-Accounted}
use axionvera_sdk.Queue.Progress.{limit, IsAwake, Step-IsAwake, Step-le_limit}

queue : Unit {0}
unfolding new_queue with_settings execute finish timeout_fires throttle_fires process_queue
    start_requests start clear_timer remove_first remove_from_queue clear_queue cancel_all destroy
    update_config
queue = tt

abbrev defaults : Settings
defaults = record {
  max_concurrent_requests = none;
  queue_timeout = none;
  enable_throttling = none;
  throttle_rate = none;
  throttle_interval = none;
}

abbrev req : String → ℕ → Request
req id now = record { id = id; timestamp = now; timeout_id = true }

-- One request runs, one waits.
abbrev busy : State
busy = execute (execute (new_queue 1 defaults 0) "a" 1) "b" 2

busy_queue :
    (busy.queue ≡ req "b" 2 ∷ []) × (busy.running ≡ req "a" 1 ∷ []) × (busy.timers ≡ "b" ∷ [])
unfolding queue
busy_queue = (refl, refl, refl)

busy_done :
    ((finish busy "a" 5).running ≡ req "b" 2 ∷ [])
    × ((finish busy "a" 5).settled ≡ ("a", finished) ∷ [])
    × ((timeout_fires busy "b").settled ≡ ("b", timed_out) ∷ [])
    × ((clear_queue busy).settled ≡ ("b", cancelled) ∷ [])
unfolding queue
busy_done = (refl, refl, refl, refl)

busy-Reach : Reach (new_queue 1 defaults 0) busy
unfolding queue
busy-Reach = next (next here (submits _ "a" 1 refl)) (submits _ "b" 2 refl)

Reach-Accounted_example : Accounted "b" busy
Reach-Accounted_example = Reach-Accounted 1 defaults 0 "b" busy-Reach

busy_ends : Step busy (finish busy "a" 5)
unfolding queue
busy_ends = finishes busy (req "a" 1) 5 (inl refl)

Step-IsAwake_example : IsAwake (finish busy "a" 5)
unfolding queue
Step-IsAwake_example = Step-IsAwake busy_ends (omega arith) (omega arith) (inr (inl (omega arith)))

Step-le_limit_example : (finish busy "a" 5).active_requests ≤ limit (finish busy "a" 5)
unfolding queue
Step-le_limit_example = Step-le_limit busy_ends (omega arith) (omega arith)

-- Three requests wait; one was just started in the interval whose rate is 2.
abbrev throttled : State
throttled = record {
  active_requests = 0;
  queue = req "a" 1 ∷ req "b" 1 ∷ req "c" 1 ∷ [];
  config = record {
    max_concurrent_requests = 5;
    queue_timeout = 0;
    enable_throttling = true;
    throttle_rate = 2;
    throttle_interval = 1000;
  };
  throttle_timer = none;
  requests_in_current_interval = 1;
  last_throttle_reset = 0;
  running = [];
  timers = [];
  submitted = [];
  settled = [];
}

abbrev open_gate : State
open_gate = record throttled {
  config = record {
    max_concurrent_requests = 2;
    queue_timeout = 0;
    enable_throttling = false;
    throttle_rate = 2;
    throttle_interval = 1000;
  };
}

process_queue-Started_example : Started open_gate (process_queue open_gate 10) open_gate.queue 2
process_queue-Started_example = process_queue-Started open_gate 10 refl
