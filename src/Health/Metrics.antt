-- ===== src/Health/Metrics.antt =====
-- The status of an endpoint tells of the checks that were made of it (src/monitoring/rpcHealthMonitor.ts).
use axionvera_sdk.Prelude.{
  ℕ, suc, ◌+◌, ◌*◌, ◌≤◌, ◌<◌, ◌≡◌, refl, sym, ap, ◌∙◌, subst, ◌≢◌, inl, inr, String, false, not,
  Option, none, some, List, [], ◌∷◌, ◌++◌, All, All-append, In, In-append_left, In-append_right,
  length, length-append, arith, Bool-cases, leb, min, max, if◌then◌else◌,
}
use axionvera_sdk.Health.Endpoint.{
  HealthState, unknown, degraded, unhealthy, Response, EndpointConfig, Quotient, Endpoint, Answer,
  responds, fails, new_endpoint, sum, record_success, record_failure, check_endpoint, state_after,
  is_unhealthy, with_min, with_max,
}

-- The checks of an endpoint with their times, the last one first.
abbrev pub Log : Type 0
Log = List (Answer × ℕ)

-- The latencies of those that were answered, the first one first.
abbrev pub latencies : Log → List ℕ
latencies [] = []
latencies ((responds r latency, now) ∷ log) = latencies log ++ latency ∷ []
latencies ((fails error, now) ∷ log) = latencies log

-- How many failed since the last answer.
abbrev pub failures_in_a_row : Log → ℕ
failures_in_a_row [] = 0
failures_in_a_row ((responds r latency, now) ∷ log) = 0
failures_in_a_row ((fails error, now) ∷ log) = suc (failures_in_a_row log)

-- A least and a greatest member, none of no members.
abbrev pub IsLeast : Option ℕ → List ℕ → Type 0
IsLeast none xs = xs ≡ []
IsLeast (some x) xs = In x xs × All (λ y. x ≤ y) xs

abbrev pub IsGreatest : Option ℕ → List ℕ → Type 0
IsGreatest none xs = xs ≡ []
IsGreatest (some x) xs = In x xs × All (λ y. y ≤ x) xs

All-le : (x y : ℕ) (xs : List ℕ) → x ≤ y → All (λ z. y ≤ z) xs → All (λ z. x ≤ z) xs
All-le x y [] h k = tt
All-le x y (z ∷ zs) h (k, ks) = (omega arith, All-le x y zs h ks)

All-ge : (x y : ℕ) (xs : List ℕ) → y ≤ x → All (λ z. z ≤ y) xs → All (λ z. z ≤ x) xs
All-ge x y [] h k = tt
All-ge x y (z ∷ zs) h (k, ks) = (omega arith, All-ge x y zs h ks)

IsLeast-append :
    (o : Option ℕ) (xs : List ℕ) (x : ℕ)
    → IsLeast o xs
    → IsLeast (some (with_min o x)) (xs ++ x ∷ [])
IsLeast-append none xs x h =
    subst (λ z. IsLeast (some x) (z ++ x ∷ [])) (sym h) (inl refl, (omega arith, tt))
IsLeast-append (some y) xs x (m, k) = elim (Bool-cases (leb y x)) [
  | inl e ↦
      let same : min y x ≡ y = ground arith in
      subst (λ z. IsLeast (some z) (xs ++ x ∷ [])) (sym same)
        (In-append_left y xs (x ∷ []) m, All-append (λ z. y ≤ z) xs (x ∷ []) k (ground arith, tt))
  | inr e ↦
      let same : min y x ≡ x = ground arith in
      subst (λ z. IsLeast (some z) (xs ++ x ∷ [])) (sym same)
        (
          In-append_right x xs (x ∷ []) (inl refl),
          All-append (λ z. x ≤ z) xs (x ∷ []) (All-le x y xs (ground arith) k) (omega arith, tt),
        )
]

IsGreatest-append :
    (o : Option ℕ) (xs : List ℕ) (x : ℕ)
    → IsGreatest o xs
    → IsGreatest (some (with_max o x)) (xs ++ x ∷ [])
IsGreatest-append none xs x h =
    subst (λ z. IsGreatest (some x) (z ++ x ∷ [])) (sym h) (inl refl, (omega arith, tt))
IsGreatest-append (some y) xs x (m, k) = elim (Bool-cases (leb x y)) [
  | inl e ↦
      let same : max y x ≡ y = ground arith in
      subst (λ z. IsGreatest (some z) (xs ++ x ∷ [])) (sym same)
        (In-append_left y xs (x ∷ []) m, All-append (λ z. z ≤ y) xs (x ∷ []) k (ground arith, tt))
  | inr e ↦
      let same : max y x ≡ x = ground arith in
      subst (λ z. IsGreatest (some z) (xs ++ x ∷ [])) (sym same)
        (
          In-append_right x xs (x ∷ []) (inl refl),
          All-append (λ z. z ≤ x) xs (x ∷ []) (All-ge x y xs (ground arith) k) (omega arith, tt),
        )
]

pub record Tells (unhealthy_after : ℕ) (log : Log) (e : Endpoint) : Type 0 where
  pub total : e.status.metrics.total_checks ≡ length log
  pub samples : e.latency_samples ≡ latencies log
  pub successful : e.status.metrics.successful_checks ≡ length (latencies log)
  pub parts : e.status.metrics.successful_checks + e.status.metrics.failed_checks ≡ length log
  pub in_a_row : e.status.metrics.consecutive_failures ≡ failures_in_a_row log
  pub least : IsLeast e.status.metrics.min_latency_ms (latencies log)
  pub greatest : IsGreatest e.status.metrics.max_latency_ms (latencies log)
  pub average :
      latencies log ≢ []
      → e.status.metrics.average_latency_ms
        ≡ some (record { over = sum (latencies log); under = length (latencies log) })
  pub availability :
      log ≢ []
      → e.status.metrics.availability_percentage
        ≡ record { over = length (latencies log) * 100; under = length log }
  pub failing :
      0 < failures_in_a_row log
      → (e.status.state
          ≡ (if leb unhealthy_after (failures_in_a_row log) then unhealthy else degraded))
        × (e.status.available ≡ false)
  pub answering :
      log ≢ [] → failures_in_a_row log ≡ 0 → e.status.available ≡ not (is_unhealthy e.status.state)
  pub unchecked : log ≡ [] → (e.status.state ≡ unknown) × (e.status.available ≡ false)

-- A new endpoint tells of no checks.
pub new_endpoint-Tells :
    (unhealthy_after : ℕ) (c : EndpointConfig) → Tells unhealthy_after [] (new_endpoint c)
new_endpoint-Tells unhealthy_after c = record {
  total = refl;
  samples = refl;
  successful = refl;
  parts = refl;
  in_a_row = refl;
  least = refl;
  greatest = refl;
  average = λ h. absurd (h refl);
  availability = λ h. absurd (h refl);
  failing = λ h. absurd (omega arith);
  answering = λ h. absurd (h refl);
  unchecked = λ h. (refl, refl);
}

Quotient-eq :
    (a b c d : ℕ)
    → a ≡ c
    → b ≡ d
    → ◌≡◌ {A = Quotient} (record { over = a; under = b }) (record { over = c; under = d })
Quotient-eq a b c d e f = rw (e, f) refl

record_success-Tells :
    (unhealthy_after : ℕ) (log : Log) (e : Endpoint) (r : Response) (latency : ℕ)
    (state : HealthState) (now : ℕ)
    → Tells unhealthy_after log e
    → Tells unhealthy_after ((responds r latency, now) ∷ log) (record_success e latency state r now)
unfolding record_success
record_success-Tells unhealthy_after log e r latency state now h =
    let samples = ap (λ xs. xs ++ latency ∷ []) h.samples in
    let more = length-append (latencies log) (latency ∷ []) in
    record {
      total = ap suc h.total;
      samples = samples;
      successful = omega (arith, h.successful, more);
      parts = omega (arith, h.parts);
      in_a_row = refl;
      least = IsLeast-append e.status.metrics.min_latency_ms (latencies log) latency h.least;
      greatest =
          IsGreatest-append e.status.metrics.max_latency_ms (latencies log) latency h.greatest;
      average = λ k. ap (λ xs. some (record { over = sum xs; under = length xs })) samples;
      availability = λ k. Quotient-eq _ _ _ _ (omega (arith, h.successful, more)) (ap suc h.total);
      failing = λ k. absurd (omega arith);
      answering = λ k z. refl;
      unchecked = λ k. cc;
    }

record_failure-Tells :
    (unhealthy_after : ℕ) (log : Log) (e : Endpoint) (a : Answer) (error : String) (now : ℕ)
    → (failures_in_a_row ((a, now) ∷ log) ≡ suc (failures_in_a_row log))
    → (latencies ((a, now) ∷ log) ≡ latencies log)
    → Tells unhealthy_after log e
    → Tells unhealthy_after ((a, now) ∷ log) (record_failure unhealthy_after e error now)
unfolding record_failure
record_failure-Tells unhealthy_after log e a error now row same h = record {
  total = ap suc h.total;
  samples = h.samples ∙ sym same;
  successful = h.successful ∙ ap length (sym same);
  parts = omega (arith, h.parts);
  in_a_row = ap suc h.in_a_row ∙ sym row;
  least = subst (IsLeast e.status.metrics.min_latency_ms) (sym same) h.least;
  greatest = subst (IsGreatest e.status.metrics.max_latency_ms) (sym same) h.greatest;
  average = λ k.
      h.average (λ z. k (same ∙ z))
      ∙ ap (λ xs. some (record { over = sum xs; under = length xs })) (sym same);
  availability =
      λ k. Quotient-eq _ _ _ _ (omega (arith, h.successful, ap length same)) (ap suc h.total);
  failing = λ k. (
    ap (λ n. if leb unhealthy_after n then unhealthy else degraded) (ap suc h.in_a_row ∙ sym row),
    refl,
  );
  answering = λ k z. absurd (omega (arith, row));
  unchecked = λ k. cc;
}

-- A check keeps the status true to the log.
pub check_endpoint-Tells :
    (lower : String → String) (degraded_latency unhealthy_after : ℕ) (log : Log) (e : Endpoint)
    (a : Answer) (now : ℕ)
    → Tells unhealthy_after log e
    → Tells unhealthy_after
        ((a, now) ∷ log)
        (check_endpoint lower degraded_latency unhealthy_after a now e)
unfolding check_endpoint
check_endpoint-Tells lower dl ua log e (responds r latency) now h =
    record_success-Tells ua log e r latency (state_after lower dl r latency) now h
check_endpoint-Tells lower dl ua log e (fails error) now h =
    record_failure-Tells ua log e (fails error) error now refl refl h
