-- ===== src/Network/Tests.antt =====
-- Failover between three endpoints (src/network/rpcEndpointManager.ts).
use axionvera_sdk.Prelude.{
  ℕ, suc, ◌≡◌, refl, String, true, if◌then◌else◌, str_eq, none, some, [], ◌∷◌, ok, err, In,
}
use axionvera_sdk.Network.Endpoints.{
  least_latency, primary_fallback, Entry, Endpoint, Manager, new_manager, entries_from, Monitor,
  Draw, candidates, pick, pick_weighted, total_weight, fastest, is_faster, sort, insert, World,
  attempts_from, execute, disable_endpoint, set_enabled,
}
use axionvera_sdk.Network.Failover.{Tried, Serves, execute-Serves}
use axionvera_sdk.Network.Best.{HasLeastLatency, IsFirst, pick_best}

endpoints : Unit {0}
unfolding new_manager entries_from candidates pick pick_weighted total_weight fastest is_faster sort
    insert attempts_from set_enabled
endpoints = tt

abbrev at : String → Endpoint
at url = record { id = none; url = url; weight = none; priority = none }

abbrev three : Manager
three =
    new_manager
      (record { endpoints = at "a" ∷ at "b" ∷ at "c" ∷ []; policy = none; max_retries = none })

abbrev half : Draw
half = record { num = 1; den = 2 }

-- "b" is unhealthy; "c" is the faster one.
abbrev monitor : Monitor
monitor id = some (record {
  unhealthy = str_eq id "b";
  average_latency_ms = if str_eq id "c" then some 5 else some 9;
})

-- Only "c" answers.
abbrev world : World ℕ
world = record {
  monitor = λ i. monitor;
  draw = λ i. half;
  fn = λ i url. if str_eq url "c" then ok 3 else err "down";
}

fails_over :
    ((execute world three).outcome ≡ ok 3)
    × ((execute world (disable_endpoint three "c")).outcome ≡ err "down")
unfolding endpoints
fails_over = (refl, refl)

execute-Serves_example :
    let r = execute world three in
    Tried world three.policy three.entries (suc three.max_retries) [] r.tried
    × Serves world three.policy three.entries (suc three.max_retries) 0 [] none r.tried r.outcome
execute-Serves_example = execute-Serves world three

abbrev entry : String → ℕ → Entry
entry id priority = record { id = id; url = id; weight = 1; priority = priority; enabled = true }

pick_best_example :
    let e = entry "a" 4 in
    let es = entry "c" 2 ∷ [] in
    let x = (pick least_latency monitor half 0 e es).0 in
    let y = (pick primary_fallback monitor half 0 e es).0 in
    (In x (e ∷ es) × HasLeastLatency monitor x (e ∷ es)) × (In y (e ∷ es) × IsFirst y (e ∷ es))
pick_best_example = pick_best monitor half 0 (entry "a" 4) (entry "c" 2 ∷ [])
