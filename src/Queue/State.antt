-- ===== src/Queue/State.antt =====
-- src/utils/concurrencyQueue.ts: the state of a ConcurrencyQueue and its methods. Beside the class's
-- fields the state holds what the event loop knows: the requests whose `execute()` is running, the ids
-- with a live queue timeout, the ids submitted so far and how requests were settled. Time is an argument.
use axionvera_sdk.Prelude.{
  ℕ, ◌+◌, ◌-◌, String, Bool, false, not, Option, none, some, List, [], ◌∷◌, ◌++◌, keep,
  if◌then◌else◌, or_else, ltb, leb, ◌==◌, str_eq,
}

pub record Config : Type 0 where
  pub max_concurrent_requests : ℕ
  pub queue_timeout : ℕ
  pub enable_throttling : Bool
  pub throttle_rate : ℕ
  pub throttle_interval : ℕ

-- `Partial<ConcurrencyConfig>`: the settings that are given.
pub record Settings : Type 0 where
  pub max_concurrent_requests : Option ℕ
  pub queue_timeout : Option ℕ
  pub enable_throttling : Option Bool
  pub throttle_rate : Option ℕ
  pub throttle_interval : Option ℕ

pub record Request : Type 0 where
  pub id : String
  pub timestamp : ℕ
  pub timeout_id : Bool

pub data Settlement : Type 0 where
  finished timed_out cancelled : Settlement

pub record State : Type 0 where
  pub active_requests : ℕ
  pub queue : List Request
  pub config : Config
  pub throttle_timer : Option ℕ
  pub requests_in_current_interval : ℕ
  pub last_throttle_reset : ℕ
  pub running : List Request
  pub timers : List String
  pub submitted : List String
  pub settled : List (String × Settlement)

-- `{ ...config, ...settings }`
unfoldable pub with_settings : Config → Settings → Config
with_settings c g = record {
  max_concurrent_requests = or_else g.max_concurrent_requests c.max_concurrent_requests;
  queue_timeout = or_else g.queue_timeout c.queue_timeout;
  enable_throttling = or_else g.enable_throttling c.enable_throttling;
  throttle_rate = or_else g.throttle_rate c.throttle_rate;
  throttle_interval = or_else g.throttle_interval c.throttle_interval;
}

-- The defaults of the constructor; `maxConcurrentRequests` is always given.
abbrev pub default_config : ℕ → Config
default_config limit = record {
  max_concurrent_requests = limit;
  queue_timeout = 30000;
  enable_throttling = false;
  throttle_rate = 10;
  throttle_interval = 1000;
}

unfoldable pub new_queue : ℕ → Settings → ℕ → State
unfolding with_settings
new_queue limit g now = record {
  active_requests = 0;
  queue = [];
  config = with_settings (default_config limit) g;
  throttle_timer = none;
  requests_in_current_interval = 0;
  last_throttle_reset = now;
  running = [];
  timers = [];
  submitted = [];
  settled = [];
}

-- `clearTimeout` of the timer that belongs to an id.
unfoldable pub clear_timer : String → List String → List String
clear_timer id ts = keep (λ t. not (str_eq t id)) ts

-- One round of the loop of `processQueue`, on the request that was shifted.
unfoldable pub start : State → Request → State
start s r = record s {
  timers = if r.timeout_id then clear_timer r.id s.timers else s.timers;
  active_requests = s.active_requests + 1;
  requests_in_current_interval = s.requests_in_current_interval + 1;
  running = s.running ++ r ∷ [];
}

-- The loop of `processQueue`, over the queue.
unfoldable pub start_requests : State → List Request → State
unfolding start
start_requests s [] = record s { queue = [] }
start_requests s (r ∷ rs) =
    let rest = start_requests (start s r) rs in
    if ltb s.active_requests s.config.max_concurrent_requests
    then rest
    else record s { queue = r ∷ rs }

-- `isThrottled` resets the counter when the interval has passed.
unfoldable pub is_throttled : State → ℕ → Bool × State
is_throttled s now =
    if leb (s.last_throttle_reset + s.config.throttle_interval) now
    then (false, record s { requests_in_current_interval = 0; last_throttle_reset = now })
    else (leb s.config.throttle_rate s.requests_in_current_interval, s)

-- `Math.max(0, interval - (now - lastReset))`; the timer holds the time at which it fires.
unfoldable pub time_until_reset : State → ℕ → ℕ
time_until_reset s now = s.config.throttle_interval + s.last_throttle_reset - now

unfoldable pub schedule_next_process : State → ℕ → State
unfolding time_until_reset
schedule_next_process s now = record s { throttle_timer = some (now + time_until_reset s now) }

-- `processQueue` after its throttle test.
unfoldable pub go_on : ℕ → Bool × State → State
unfolding schedule_next_process
go_on now (full, t) = if full then schedule_next_process t now else start_requests t t.queue

unfoldable pub process_queue : State → ℕ → State
unfolding is_throttled go_on
process_queue s now =
    if s.config.enable_throttling then go_on now (is_throttled s now) else start_requests s s.queue

-- The request that `execute` queues; it has a timeout unless the configured one is 0.
abbrev pub queued_request : State → String → ℕ → Request
queued_request s id now = record {
  id = id;
  timestamp = now;
  timeout_id = not (s.config.queue_timeout == 0);
}

-- `execute`, with the id that `generateRequestId` gives.
unfoldable pub execute : State → String → ℕ → State
execute s id now =
    process_queue
      (record s {
        queue = s.queue ++ queued_request s id now ∷ [];
        timers = if not (s.config.queue_timeout == 0) then id ∷ s.timers else s.timers;
        submitted = id ∷ s.submitted;
      })
      now

unfoldable pub remove_first : String → List Request → List Request
remove_first id [] = []
remove_first id (r ∷ rs) = if str_eq r.id id then rs else r ∷ remove_first id rs

-- `executeRequest` once `execute()` has settled: the caller is answered, and the queue goes on.
unfoldable pub finish : State → String → ℕ → State
finish s id now =
    process_queue
      (record s {
        active_requests = s.active_requests - 1;
        running = remove_first id s.running;
        settled = (id, finished) ∷ s.settled;
      })
      now

unfoldable pub remove_from_queue : State → String → State
remove_from_queue s id = record s {
  queue = remove_first id s.queue;
  timers = clear_timer id s.timers;
}

-- The callback of a request's queue timeout.
unfoldable pub timeout_fires : State → String → State
unfolding remove_from_queue
timeout_fires s id =
    let t = remove_from_queue s id in record t { settled = (id, timed_out) ∷ t.settled }

-- The callback of the throttle timer.
unfoldable pub throttle_fires : State → ℕ → State
throttle_fires s now = process_queue (record s { throttle_timer = none }) now

-- The loop of `clearQueue`, one round first.
abbrev pub cancelled_one : State → Request → State
cancelled_one s r = record s {
  timers = if r.timeout_id then clear_timer r.id s.timers else s.timers;
  settled = (r.id, cancelled) ∷ s.settled;
}

unfoldable pub cancel_all : State → List Request → State
cancel_all s [] = record s { queue = [] }
cancel_all s (r ∷ rs) = cancel_all (cancelled_one s r) rs

unfoldable pub clear_queue : State → State
clear_queue s = cancel_all (record s { throttle_timer = none }) s.queue

unfoldable pub update_config : State → Settings → State
unfolding with_settings
update_config s g = record s { config = with_settings s.config g }

unfoldable pub destroy : State → State
unfolding clear_queue
destroy s = record (clear_queue s) { throttle_timer = none }
