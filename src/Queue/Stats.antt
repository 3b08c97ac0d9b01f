-- ===== src/Queue/Stats.antt =====
-- src/utils/concurrencyQueue.ts: getStats and getQueueStatus. A quotient of JavaScript numbers is the
-- pair of its parts, and no request is younger than `now`.
use axionvera_sdk.Queue.Process.{refreshed}
use axionvera_sdk.Prelude.{
  Bool-cases, leb, ◌≡◌, refl, inl, inr, ℕ, ◌+◌, ◌-◌, ◌*◌, ◌≤◌, Bool, false, List, [], ◌∷◌, map,
  length, min, arith, if◌then◌else◌,
}
use axionvera_sdk.Queue.State.{Request, State, is_throttled, time_until_reset}

pub record Stats : Type 0 where
  pub active_requests : ℕ
  pub queued_requests : ℕ
  pub max_concurrent_requests : ℕ
  pub queue_timeout : ℕ
  pub throttle_enabled : Bool
  pub throttle_rate : ℕ
  pub throttle_interval : ℕ
  pub requests_in_current_interval : ℕ
  pub time_until_next_throttle_reset : ℕ
  pub queue_timestamps : List ℕ

pub record Quotient : Type 0 where
  pub over : ℕ
  pub under : ℕ

pub record Status : Type 0 where
  pub stats : Stats
  pub oldest_request_wait_time : ℕ
  pub average_wait_time : Quotient
  pub is_throttled : Bool
  pub utilization_rate : Quotient

unfoldable pub get_stats : State → ℕ → Stats
unfolding time_until_reset
get_stats s now = record {
  active_requests = s.active_requests;
  queued_requests = length s.queue;
  max_concurrent_requests = s.config.max_concurrent_requests;
  queue_timeout = s.config.queue_timeout;
  throttle_enabled = s.config.enable_throttling;
  throttle_rate = s.config.throttle_rate;
  throttle_interval = s.config.throttle_interval;
  requests_in_current_interval = s.requests_in_current_interval;
  time_until_next_throttle_reset = time_until_reset s now;
  queue_timestamps = map (λ r. r.timestamp) s.queue;
}

-- `Math.min` of the timestamps, of which there is at least one.
unfoldable pub oldest : ℕ → List Request → ℕ
oldest t [] = t
oldest t (r ∷ rs) = oldest (min t r.timestamp) rs

unfoldable pub oldest_wait : List Request → ℕ → ℕ
unfolding oldest
oldest_wait [] now = 0
oldest_wait (r ∷ rs) now = now - oldest r.timestamp rs

-- The sum of `reduce`.
unfoldable pub total_wait : List Request → ℕ → ℕ
total_wait [] now = 0
total_wait (r ∷ rs) now = (now - r.timestamp) + total_wait rs now

-- `isThrottled` may reset the interval's counter, so the state is given back too.
unfoldable pub get_queue_status : State → ℕ → Status × State
unfolding get_stats oldest_wait total_wait
get_queue_status s now =
    let (full, t) = if s.config.enable_throttling then is_throttled s now else (false, s) in
    (
      record {
        stats = get_stats s now;
        oldest_request_wait_time = oldest_wait s.queue now;
        average_wait_time = record { over = total_wait s.queue now; under = length s.queue };
        is_throttled = full;
        utilization_rate = record {
          over = s.active_requests * 100;
          under = s.config.max_concurrent_requests;
        };
      },
      t,
    )

-- Asking for the status changes at most the counter of the interval and its start.
pub get_queue_status-refreshed :
    (s : State) (now : ℕ)
    → (count : ℕ) × (reset : ℕ) × ((get_queue_status s now).1 ≡ refreshed s count reset)
unfolding get_queue_status is_throttled
get_queue_status-refreshed s now = elim (Bool-cases s.config.enable_throttling) [
  | inr off ↦ (s.requests_in_current_interval, s.last_throttle_reset, rw off refl)
  | inl on ↦ elim (Bool-cases (leb (s.last_throttle_reset + s.config.throttle_interval) now)) [
    | inl due ↦ (0, now, rw (on, due) refl)
    | inr early ↦ (s.requests_in_current_interval, s.last_throttle_reset, rw (on, early) refl)
  ]
]

oldest-le : (t : ℕ) (rs : List Request) → oldest t rs ≤ t
unfolding oldest
oldest-le t [] = omega arith
oldest-le t (r ∷ rs) = omega (arith, oldest-le (min t r.timestamp) rs)

oldest_wait-bounds :
    (now : ℕ) (t : ℕ) (rs : List Request) → total_wait rs now ≤ length rs * (now - oldest t rs)
unfolding oldest total_wait
oldest_wait-bounds now t [] = omega arith
oldest_wait-bounds now t (r ∷ rs) =
    let ih = oldest_wait-bounds now (min t r.timestamp) rs in
    let low = oldest-le (min t r.timestamp) rs in grind arith

total_wait-le : (rs : List Request) (now : ℕ) → total_wait rs now ≤ length rs * oldest_wait rs now
unfolding total_wait oldest_wait
total_wait-le [] now = omega arith
total_wait-le (r ∷ rs) now =
    let rest = oldest_wait-bounds now r.timestamp rs in
    let low = oldest-le r.timestamp rs in grind arith

-- The average waiting time is at most that of the oldest request: the sum of the waiting times is at
-- most their number times the longest one.
pub get_queue_status-average :
    (s : State) (now : ℕ)
    → (get_queue_status s now).0.average_wait_time.over
      ≤ (get_queue_status s now).0.average_wait_time.under
        * (get_queue_status s now).0.oldest_request_wait_time
unfolding get_queue_status
get_queue_status-average s now = total_wait-le s.queue now
