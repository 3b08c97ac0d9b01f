-- ===== src/Health/Tests.antt =====
-- A monitor of two endpoints, run on concrete answers.
use axionvera_sdk.Prelude.{◌≡◌, refl, String, true, none, some, List, [], ◌∷◌, map, ok, err}
use axionvera_sdk.Health.Endpoint.{
  HealthState, degraded, unhealthy, Response, Config, responds, fails, no_endpoints, new_endpoint,
  record_success, record_failure, check_endpoint,
}
use axionvera_sdk.Health.Monitor.{
  Monitor, new_monitor, initial, auto_started, start, run_health_checks, interval_fires, answered,
  find_endpoint, get_endpoint_status, add_statuses, get_health_report,
}
use axionvera_sdk.Health.Rounds.{
  Event, fires, answers, happens, after_events, IsSound, new_monitor-IsSound,
}

-- What the tests compute with.
unfoldable monitors : Unit {0}
unfolding after_events happens start run_health_checks interval_fires answered check_endpoint
    record_success record_failure get_health_report add_statuses
monitors = tt

abbrev same_text : String → String
same_text s = s

abbrev config : Config
config = record {
  endpoints =
      record { id = some "main"; url = "https://a"; network = none }
      ∷ record { id = none; url = "https://b"; network = none }
      ∷ [];
  interval_ms = none;
  timeout_ms = none;
  degraded_latency_ms = some 100;
  unhealthy_after_failures = none;
  auto_start = some true;
}

abbrev good : Response
good = record { status = some "healthy"; version = none }

-- A fast answer and a failure, then a slow answer and a time-out: the second endpoint is unhealthy after two failures.
abbrev two_rounds : List Event
two_rounds =
    answers 1 (fails "refused") 10
    ∷ fires
    ∷ answers 0 (responds good 40) 11
    ∷ fires
    ∷ answers 0 (responds good 400) 20
    ∷ answers 1 (fails "RPC health check timed out after 10000ms") 25
    ∷ []

abbrev monitor : Monitor
monitor = auto_started true (initial config)

abbrev states : Monitor → List HealthState
states m = map (λ e. e.status.state) m.endpoints

monitor_made : new_monitor config ≡ ok monitor
unfolding new_monitor
monitor_made = refl

after_two_rounds : states (after_events same_text two_rounds monitor) ≡ degraded ∷ unhealthy ∷ []
unfolding monitors
after_two_rounds = refl

average_after_two_rounds :
    map
      (λ e. e.status.metrics.average_latency_ms)
      (after_events same_text two_rounds monitor).endpoints
    ≡ some (record { over = 440; under = 2 }) ∷ none ∷ []
unfolding monitors
average_after_two_rounds = refl

by_url :
    get_endpoint_status "https://b" monitor
    ≡ some (new_endpoint (record { id = none; url = "https://b"; network = none })).status
unfolding find_endpoint start run_health_checks
by_url = refl

counted_after_two_rounds :
    (get_health_report 30 (after_events same_text two_rounds monitor)).summary.available_count ≡ 1
unfolding monitors
counted_after_two_rounds = refl

no_endpoints_thrown : new_monitor (record config { endpoints = [] }) ≡ err no_endpoints
unfolding new_monitor
no_endpoints_thrown = refl

new_monitor-IsSound_example : IsSound (after_events same_text two_rounds monitor)
new_monitor-IsSound_example = new_monitor-IsSound same_text config monitor two_rounds monitor_made
