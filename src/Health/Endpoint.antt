-- ===== src/Health/Endpoint.antt =====
-- src/monitoring/rpcHealthMonitor.ts: the status and the metrics of an endpoint, and what a check does to them.
-- Times and latencies are natural numbers, a quotient is a pair of them, and `toLowerCase` is the parameter `lower`.
use axionvera_sdk.Prelude.{
  ℕ, suc, ◌+◌, ◌*◌, String, Bool, true, false, not, Option, none, some, List, [], ◌∷◌, ◌++◌, length,
  if◌then◌else◌, or_else, str_eq, ltb, leb, min, max,
}

pub data HealthState : Type 0 where
  unknown healthy degraded unhealthy : HealthState

pub record Response : Type 0 where
  pub status : Option String
  pub version : Option String

pub record EndpointConfig : Type 0 where
  pub id : Option String
  pub url : String
  pub network : Option String

pub record Config : Type 0 where
  pub endpoints : List EndpointConfig
  pub interval_ms : Option ℕ
  pub timeout_ms : Option ℕ
  pub degraded_latency_ms : Option ℕ
  pub unhealthy_after_failures : Option ℕ
  pub auto_start : Option Bool

pub record Quotient : Type 0 where
  pub over : ℕ
  pub under : ℕ

pub record Metrics : Type 0 where
  pub total_checks : ℕ
  pub successful_checks : ℕ
  pub failed_checks : ℕ
  pub consecutive_failures : ℕ
  pub last_latency_ms : Option ℕ
  pub average_latency_ms : Option Quotient
  pub min_latency_ms : Option ℕ
  pub max_latency_ms : Option ℕ
  pub availability_percentage : Quotient

pub record Status : Type 0 where
  pub id : String
  pub url : String
  pub network : Option String
  pub state : HealthState
  pub available : Bool
  pub checked_at : Option ℕ
  pub error : Option String
  pub response : Option Response
  pub metrics : Metrics

pub record Endpoint : Type 0 where
  pub id : String
  pub url : String
  pub status : Status
  pub latency_samples : List ℕ

-- What becomes of a check: an answer in time with its latency, or an error by its message. The time limit is such an
-- error, whose message says after how many milliseconds.
pub data Answer : Type 0 where
  responds : Response → ℕ → Answer
  fails : String → Answer

pub data MonitorError : Type 0 where
  no_endpoints : MonitorError

abbrev pub default_metrics : Metrics
default_metrics = record {
  total_checks = 0;
  successful_checks = 0;
  failed_checks = 0;
  consecutive_failures = 0;
  last_latency_ms = none;
  average_latency_ms = none;
  min_latency_ms = none;
  max_latency_ms = none;
  availability_percentage = record { over = 0; under = 1 };
}

abbrev pub new_endpoint : EndpointConfig → Endpoint
new_endpoint c =
    let id = or_else c.id c.url in
    record {
      id = id;
      url = c.url;
      latency_samples = [];
      status = record {
        id = id;
        url = c.url;
        network = c.network;
        state = unknown;
        available = false;
        checked_at = none;
        error = none;
        response = none;
        metrics = default_metrics;
      };
    }

abbrev pub sum : List ℕ → ℕ
sum [] = 0
sum (x ∷ xs) = x + sum xs

abbrev pub with_min : Option ℕ → ℕ → ℕ
with_min none x = x
with_min (some y) x = min y x

abbrev pub with_max : Option ℕ → ℕ → ℕ
with_max none x = x
with_max (some y) x = max y x

abbrev pub is_unhealthy : HealthState → Bool
is_unhealthy unknown = false
is_unhealthy healthy = false
is_unhealthy degraded = false
is_unhealthy unhealthy = true

unfoldable pub record_success : Endpoint → ℕ → HealthState → Response → ℕ → Endpoint
record_success e latency state response now =
    let samples = e.latency_samples ++ latency ∷ [] in
    let old = e.status.metrics in
    let total = suc old.total_checks in
    let successful = suc old.successful_checks in
    record e {
      latency_samples = samples;
      status = record e.status {
        state = state;
        available = not (is_unhealthy state);
        checked_at = some now;
        error = none;
        response = some response;
        metrics = record old {
          total_checks = total;
          successful_checks = successful;
          consecutive_failures = 0;
          last_latency_ms = some latency;
          min_latency_ms = some (with_min old.min_latency_ms latency);
          max_latency_ms = some (with_max old.max_latency_ms latency);
          average_latency_ms = some (record { over = sum samples; under = length samples });
          availability_percentage = record { over = successful * 100; under = total };
        };
      };
    }

unfoldable pub record_failure : ℕ → Endpoint → String → ℕ → Endpoint
record_failure unhealthy_after e error now =
    let old = e.status.metrics in
    let total = suc old.total_checks in
    let failures = suc old.consecutive_failures in
    record e {
      status = record e.status {
        state = if leb unhealthy_after failures then unhealthy else degraded;
        available = false;
        checked_at = some now;
        error = some error;
        response = none;
        metrics = record old {
          total_checks = total;
          failed_checks = suc old.failed_checks;
          consecutive_failures = failures;
          availability_percentage = record { over = old.successful_checks * 100; under = total };
        };
      };
    }

module _ (lower : String → String) where
  abbrev pub is_healthy_response : Response → Bool
  is_healthy_response r = elim r.status [ none ↦ true | some s ↦ str_eq (lower s) "healthy" ]

  abbrev pub state_after : ℕ → Response → ℕ → HealthState
  state_after degraded_latency r latency =
      if is_healthy_response r
      then (if ltb degraded_latency latency then degraded else healthy)
      else unhealthy

  -- The rest of `checkEndpoint`, once its check has ended at the time `now`.
  unfoldable pub check_endpoint : ℕ → ℕ → Answer → ℕ → Endpoint → Endpoint
  check_endpoint degraded_latency unhealthy_after (responds r latency) now e =
      record_success e latency (state_after degraded_latency r latency) r now
  check_endpoint degraded_latency unhealthy_after (fails error) now e =
      record_failure unhealthy_after e error now
