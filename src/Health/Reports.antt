-- ===== src/Health/Reports.antt =====
-- The report of RpcHealthMonitor (src/monitoring/rpcHealthMonitor.ts) counts every endpoint.
use axionvera_sdk.Prelude.{ℕ, suc, ◌+◌, ◌≤◌, ◌≡◌, List, [], ◌∷◌, length, length-map, arith}
use axionvera_sdk.Health.Endpoint.{Status}
use axionvera_sdk.Health.Monitor.{
  Monitor, Summary, count_state, count_available, add_statuses, no_counts, get_health_report,
  get_endpoint_statuses,
}

-- The counts of a summary, taken together.
abbrev pub in_states : Summary → ℕ
in_states s = s.healthy_count + (s.degraded_count + (s.unhealthy_count + s.unknown_count))

-- The summary after one status.
abbrev counted : Summary → Status → Summary
counted s x = count_available x.available (count_state x.state (record s { total = suc s.total }))

counted-total : (s : Summary) (x : Status) → (counted s x).total ≡ suc s.total
counted-total s x = ground arith

counted-states : (s : Summary) (x : Status) → in_states (counted s x) ≡ suc (in_states s)
counted-states s x = ground arith

counted-available :
    (s : Summary) (x : Status) → (counted s x).available_count ≤ suc s.available_count
counted-available s x = ground arith

add_statuses-counts :
    (s : Summary) (xs : List Status)
    → ((add_statuses s xs).total ≡ s.total + length xs)
      × (in_states (add_statuses s xs) ≡ in_states s + length xs)
      × ((add_statuses s xs).available_count ≤ s.available_count + length xs)
unfolding add_statuses
add_statuses-counts s [] = (omega arith, omega arith, omega arith)
add_statuses-counts s (x ∷ xs) =
    let (total, states, available) = add_statuses-counts (counted s x) xs in
    (
      omega (arith, total, counted-total s x),
      omega (arith, states, counted-states s x),
      omega (arith, available, counted-available s x),
    )

-- The report counts each endpoint once in the total and once under its state, and no more as available.
pub get_health_report-counts :
    (now : ℕ) (m : Monitor)
    → ((get_health_report now m).summary.total ≡ length m.endpoints)
      × (in_states (get_health_report now m).summary ≡ length m.endpoints)
      × ((get_health_report now m).summary.available_count ≤ length m.endpoints)
unfolding get_health_report
get_health_report-counts now m =
    let (total, states, available) = add_statuses-counts no_counts (get_endpoint_statuses m) in
    let size : length (get_endpoint_statuses m) ≡ length m.endpoints = length-map _ _ in
    (omega (arith, total, size), omega (arith, states, size), omega (arith, available, size))
