-- ===== src/Health/Monitor.antt =====
-- src/monitoring/rpcHealthMonitor.ts: RpcHealthMonitor. A round of checks asks all endpoints at once; the answer of
-- one of them, or its failure, is a step of its own, in any order.
use axionvera_sdk.Prelude.{
  ℕ, zero, suc, String, Bool, true, false, not, ◌||◌, Option, none, some, List, [], ◌∷◌, map, any,
  keep, Outcome, ok, err, if◌then◌else◌, is_empty, or_else, str_eq, ◌==◌,
}
use axionvera_sdk.Health.Endpoint.{
  HealthState, unknown, healthy, degraded, unhealthy, Config, Status, Endpoint, Answer,
  MonitorError, no_endpoints, new_endpoint, check_endpoint,
}

-- `waiting` has the endpoints, by their places, that have not answered in the round that is in progress.
pub record Monitor : Type 0 where
  pub interval_ms : ℕ
  pub timeout_ms : ℕ
  pub degraded_latency_ms : ℕ
  pub unhealthy_after_failures : ℕ
  pub endpoints : List Endpoint
  pub running : Bool
  pub check_in_progress : Bool
  pub waiting : List ℕ

-- The places `i`, `i + 1`, … of a list.
abbrev pub places {ℓ} : {A : Type ℓ} → ℕ → List A → List ℕ
places i [] = []
places i (x ∷ xs) = i ∷ places (suc i) xs

-- The start of `runHealthChecks`, up to its first await: nothing, where a round is in progress.
unfoldable pub run_health_checks : Monitor → Monitor
run_health_checks m =
    if m.check_in_progress
    then m
    else record m { check_in_progress = true; waiting = places 0 m.endpoints }

unfoldable pub start : Monitor → Monitor
start m = if m.running then m else run_health_checks (record m { running = true })

unfoldable pub stop : Monitor → Monitor
stop m = record m { running = false }

-- The timer of `start`.
unfoldable pub interval_fires : Monitor → Monitor
interval_fires m = if m.running then run_health_checks m else m

-- The fields that the constructor sets.
abbrev pub initial : Config → Monitor
initial c = record {
  interval_ms = or_else c.interval_ms 30000;
  timeout_ms = or_else c.timeout_ms 5000;
  degraded_latency_ms = or_else c.degraded_latency_ms 1500;
  unhealthy_after_failures = or_else c.unhealthy_after_failures 2;
  endpoints = map new_endpoint c.endpoints;
  running = false;
  check_in_progress = false;
  waiting = [];
}

abbrev pub auto_started : Bool → Monitor → Monitor
auto_started true m = start m
auto_started false m = m

unfoldable pub new_monitor : Config → Outcome MonitorError Monitor
new_monitor c =
    if is_empty c.endpoints
    then err no_endpoints
    else ok (auto_started (or_else c.auto_start false) (initial c))

abbrev pub change_at : (Endpoint → Endpoint) → ℕ → List Endpoint → List Endpoint
change_at change i [] = []
change_at change zero (e ∷ es) = change e ∷ es
change_at change (suc i) (e ∷ es) = e ∷ change_at change i es

module _ (lower : String → String) where
  -- The answer of the endpoint at a place; the round ends with the last one.
  unfoldable pub answered : ℕ → Answer → ℕ → Monitor → Monitor
  answered i answer now m =
      if any (λ j. j == i) m.waiting
      then (let left_over = keep (λ j. not (j == i)) m.waiting in
          record m {
            endpoints =
                change_at
                  (check_endpoint lower m.degraded_latency_ms m.unhealthy_after_failures answer now)
                  i m.endpoints;
            waiting = left_over;
            check_in_progress = not (is_empty left_over);
          })
      else m

unfoldable pub find_endpoint : String → List Endpoint → Option Endpoint
find_endpoint key [] = none
find_endpoint key (e ∷ es) =
    if str_eq e.id key || str_eq e.url key then some e else find_endpoint key es

abbrev pub status_of : Option Endpoint → Option Status
status_of none = none
status_of (some e) = some e.status

abbrev pub get_endpoint_status : String → Monitor → Option Status
get_endpoint_status key m = status_of (find_endpoint key m.endpoints)

abbrev pub get_endpoint_statuses : Monitor → List Status
get_endpoint_statuses m = map (λ e. e.status) m.endpoints

pub record Summary : Type 0 where
  pub total : ℕ
  pub healthy_count : ℕ
  pub degraded_count : ℕ
  pub unhealthy_count : ℕ
  pub unknown_count : ℕ
  pub available_count : ℕ

abbrev pub count_state : HealthState → Summary → Summary
count_state unknown s = record s { unknown_count = suc s.unknown_count }
count_state healthy s = record s { healthy_count = suc s.healthy_count }
count_state degraded s = record s { degraded_count = suc s.degraded_count }
count_state unhealthy s = record s { unhealthy_count = suc s.unhealthy_count }

abbrev pub count_available : Bool → Summary → Summary
count_available true s = record s { available_count = suc s.available_count }
count_available false s = s

-- The `reduce` of `getHealthReport`.
unfoldable pub add_statuses : Summary → List Status → Summary
add_statuses s [] = s
add_statuses s (x ∷ xs) =
    add_statuses
      (count_available x.available (count_state x.state (record s { total = suc s.total }))) xs

abbrev pub no_counts : Summary
no_counts = record {
  total = 0;
  healthy_count = 0;
  degraded_count = 0;
  unhealthy_count = 0;
  unknown_count = 0;
  available_count = 0;
}

pub record Report : Type 0 where
  pub generated_at : ℕ
  pub running : Bool
  pub interval_ms : ℕ
  pub timeout_ms : ℕ
  pub endpoints : List Status
  pub summary : Summary

unfoldable pub get_health_report : ℕ → Monitor → Report
get_health_report now m = record {
  generated_at = now;
  running = m.running;
  interval_ms = m.interval_ms;
  timeout_ms = m.timeout_ms;
  endpoints = get_endpoint_statuses m;
  summary = add_statuses no_counts (get_endpoint_statuses m);
}
