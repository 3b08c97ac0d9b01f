-- ===== src/Health/Rounds.antt =====
-- Over every event RpcHealthMonitor (src/monitoring/rpcHealthMonitor.ts) keeps true statuses, and a round of checks
-- is in progress exactly while an endpoint has not answered.
use axionvera_sdk.Prelude.{
  ℕ, zero, suc, ◌≡◌, refl, sym, ap, subst, inl, inr, String, Bool, true, false, not, List, [], ◌∷◌,
  map, any, keep, All, arith, Bool-cases, ok, err-ne-ok, is_empty, or_else, ◌==◌,
}
use axionvera_sdk.Health.Endpoint.{
  Config, Endpoint, EndpointConfig, Answer, new_endpoint, check_endpoint, no_endpoints,
}
use axionvera_sdk.Health.Monitor.{
  Monitor, places, run_health_checks, start, stop, interval_fires, new_monitor, initial,
  auto_started, change_at, answered,
}
use axionvera_sdk.Health.Metrics.{Log, Tells, new_endpoint-Tells, check_endpoint-Tells}

-- What happens to a monitor: a call, its timer, or the end of the check of an endpoint at a time.
pub data Event : Type 0 where
  starts stops runs_checks fires : Event
  answers : ℕ → Answer → ℕ → Event

module _ (lower : String → String) where
  unfoldable pub happens : Event → Monitor → Monitor
  happens starts m = start m
  happens stops m = stop m
  happens runs_checks m = run_health_checks m
  happens fires m = interval_fires m
  happens (answers i a now) m = answered lower i a now m

  unfoldable pub after_events : List Event → Monitor → Monitor
  after_events [] m = m
  after_events (e ∷ es) m = after_events es (happens e m)

abbrev pub IsTold : ℕ → Endpoint → Type 0
IsTold unhealthy_after e = (log : Log) × Tells unhealthy_after log e

pub record IsSound (m : Monitor) : Type 0 where
  pub told : All (IsTold m.unhealthy_after_failures) m.endpoints
  pub in_progress : m.check_in_progress ≡ not (is_empty m.waiting)
  pub some_endpoint : is_empty m.endpoints ≡ false

places-some : (es : List Endpoint) → is_empty es ≡ false → is_empty (places 0 es) ≡ false
places-some [] h = h
places-some (e ∷ es) h = refl

run_busy : (m : Monitor) → m.check_in_progress ≡ true → run_health_checks m ≡ m
unfolding run_health_checks
run_busy m h = ground arith

run_free :
    (m : Monitor)
    → m.check_in_progress ≡ false
    → run_health_checks m ≡ record m { check_in_progress = true; waiting = places 0 m.endpoints }
unfolding run_health_checks
run_free m h = ground arith

start_on : (m : Monitor) → m.running ≡ true → start m ≡ m
unfolding start
start_on m h = ground arith

start_off :
    (m : Monitor) → m.running ≡ false → start m ≡ run_health_checks (record m { running = true })
unfolding start
start_off m h = ground arith

run_health_checks-IsSound : (m : Monitor) → IsSound m → IsSound (run_health_checks m)
unfolding run_health_checks
run_health_checks-IsSound m h = elim (Bool-cases m.check_in_progress) [
  | inl busy ↦ subst IsSound (sym (run_busy m busy)) h
  | inr free ↦ subst IsSound (sym (run_free m free)) (record {
    told = h.told;
    in_progress = sym (ap not (places-some m.endpoints h.some_endpoint));
    some_endpoint = h.some_endpoint;
  })
]

start-IsSound : (m : Monitor) → IsSound m → IsSound (start m)
unfolding start
start-IsSound m h = elim (Bool-cases m.running) [
  | inl on ↦ subst IsSound (sym (start_on m on)) h
  | inr off ↦ subst IsSound (sym (start_off m off)) (
      run_health_checks-IsSound (record m { running = true })
        (record { told = h.told; in_progress = h.in_progress; some_endpoint = h.some_endpoint }))
]

fires_on : (m : Monitor) → m.running ≡ true → interval_fires m ≡ run_health_checks m
unfolding interval_fires
fires_on m h = ground arith

fires_off : (m : Monitor) → m.running ≡ false → interval_fires m ≡ m
unfolding interval_fires
fires_off m h = ground arith

interval_fires-IsSound : (m : Monitor) → IsSound m → IsSound (interval_fires m)
unfolding interval_fires
interval_fires-IsSound m h = elim (Bool-cases m.running) [
  | inl on ↦ subst IsSound (sym (fires_on m on)) (run_health_checks-IsSound m h)
  | inr off ↦ subst IsSound (sym (fires_off m off)) h
]

change_at-IsTold :
    (ua : ℕ) (change : Endpoint → Endpoint) (i : ℕ) (es : List Endpoint)
    → ((e : Endpoint) → IsTold ua e → IsTold ua (change e))
    → All (IsTold ua) es
    → All (IsTold ua) (change_at change i es)
change_at-IsTold ua change i [] h k = k
change_at-IsTold ua change zero (e ∷ es) h (t, k) = (h e t, k)
change_at-IsTold ua change (suc i) (e ∷ es) h (t, k) = (t, change_at-IsTold ua change i es h k)

change_at-some :
    (change : Endpoint → Endpoint) (i : ℕ) (es : List Endpoint)
    → is_empty es ≡ false
    → is_empty (change_at change i es) ≡ false
change_at-some change i [] h = h
change_at-some change zero (e ∷ es) h = refl
change_at-some change (suc i) (e ∷ es) h = refl

new_endpoints-IsTold :
    (unhealthy_after : ℕ) (cs : List EndpointConfig)
    → All (IsTold unhealthy_after) (map new_endpoint cs)
new_endpoints-IsTold unhealthy_after [] = tt
new_endpoints-IsTold unhealthy_after (c ∷ cs) =
    (([], new_endpoint-Tells unhealthy_after c), new_endpoints-IsTold unhealthy_after cs)

map-some : (cs : List EndpointConfig) → is_empty cs ≡ false → is_empty (map new_endpoint cs) ≡ false
map-some [] h = h
map-some (c ∷ cs) h = refl

initial-IsSound : (c : Config) → is_empty c.endpoints ≡ false → IsSound (initial c)
initial-IsSound c h = record {
  told = new_endpoints-IsTold (or_else c.unhealthy_after_failures 2) c.endpoints;
  in_progress = refl;
  some_endpoint = map-some c.endpoints h;
}

auto_started-IsSound : (b : Bool) (m : Monitor) → IsSound m → IsSound (auto_started b m)
auto_started-IsSound true m h = start-IsSound m h
auto_started-IsSound false m h = h

starts-IsSound : (c : Config) (m : Monitor) → new_monitor c ≡ ok m → IsSound m
unfolding new_monitor
starts-IsSound c m h = elim (Bool-cases (is_empty c.endpoints)) [
  | inl e ↦ absurd (err-ne-ok (new_monitor c) no_endpoints m (rw (e, new_monitor) refl) h)
  | inr e ↦
      let started : Monitor = auto_started (or_else c.auto_start false) (initial c) in
      let made : new_monitor c ≡ ok started = rw (e, new_monitor) refl in
      let same : started ≡ m = cc in
      subst IsSound same (auto_started-IsSound _ (initial c) (initial-IsSound c e))
]

module _ (lower : String → String) where
  answered_due :
      (i : ℕ) (a : Answer) (now : ℕ) (m : Monitor)
      → any (λ j. j == i) m.waiting ≡ true
      → answered lower i a now m ≡ record m {
        endpoints =
            change_at
              (check_endpoint lower m.degraded_latency_ms m.unhealthy_after_failures a now)
              i
              m.endpoints;
        waiting = keep (λ j. not (j == i)) m.waiting;
        check_in_progress = not (is_empty (keep (λ j. not (j == i)) m.waiting));
      }
  unfolding answered
  answered_due i a now m h = rw (h, answered) refl

  answered_other :
      (i : ℕ) (a : Answer) (now : ℕ) (m : Monitor)
      → any (λ j. j == i) m.waiting ≡ false
      → answered lower i a now m ≡ m
  unfolding answered
  answered_other i a now m h = rw (h, answered) refl

  answered-IsSound :
      (i : ℕ) (a : Answer) (now : ℕ) (m : Monitor) → IsSound m → IsSound (answered lower i a now m)
  unfolding answered
  answered-IsSound i a now m h = elim (Bool-cases (any (λ j. j == i) m.waiting)) [
    | inr other ↦ subst IsSound (sym (answered_other i a now m other)) h
    | inl due ↦
        let check = check_endpoint lower m.degraded_latency_ms m.unhealthy_after_failures a now in
        subst IsSound (sym (answered_due i a now m due)) (record {
          told =
              change_at-IsTold m.unhealthy_after_failures check i m.endpoints
                (λ e t. (
                  (a, now) ∷ t.0,
                  check_endpoint-Tells lower m.degraded_latency_ms m.unhealthy_after_failures t.0 e
                      a now t.1,
                ))
                h.told;
          in_progress = refl;
          some_endpoint = change_at-some check i m.endpoints h.some_endpoint;
        })
  ]

  happens-IsSound : (e : Event) (m : Monitor) → IsSound m → IsSound (happens lower e m)
  unfolding happens stop
  happens-IsSound starts m h = start-IsSound m h
  happens-IsSound stops m h = record {
    told = h.told;
    in_progress = h.in_progress;
    some_endpoint = h.some_endpoint;
  }
  happens-IsSound runs_checks m h = run_health_checks-IsSound m h
  happens-IsSound fires m h = interval_fires-IsSound m h
  happens-IsSound (answers i a now) m h = answered-IsSound i a now m h

  after_events-IsSound :
      (es : List Event) (m : Monitor) → IsSound m → IsSound (after_events lower es m)
  unfolding after_events
  after_events-IsSound [] m h = h
  after_events-IsSound (e ∷ es) m h =
      after_events-IsSound es (happens lower e m) (happens-IsSound e m h)

  -- From a new monitor and over every event, a round is in progress exactly while an endpoint has not answered, and
  -- the status of each endpoint tells of a list of checks: their number, the failures and those in a row since the
  -- last answer, the least, greatest and average latency of the answers, and the share of these; after a failure
  -- the endpoint is not available, and unhealthy from the given number of failures in a row on.
  pub new_monitor-IsSound :
      (c : Config) (m : Monitor) (es : List Event)
      → new_monitor c ≡ ok m
      → IsSound (after_events lower es m)
  new_monitor-IsSound c m es h = after_events-IsSound es m (starts-IsSound c m h)
