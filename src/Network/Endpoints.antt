-- ===== src/Network/Endpoints.antt =====
-- src/network/rpcEndpointManager.ts: RpcEndpointManager. What the health monitor answers, what `fn` does and
-- the random draws are parameters, by the number of the attempt. Weights, priorities and latencies are
-- natural numbers.
use axionvera_sdk.Prelude.{
  ℕ, zero, suc, ◌+◌, ◌*◌, ◌%◌, String, Bool, true, false, not, ◌&&◌, Option, none, some, List, [],
  ◌∷◌, ◌++◌, any, keep, length, get_elem?, if◌then◌else◌, leb, ltb, str_eq, or_else, is_some,
  Outcome, ok, err,
}

pub data Policy : Type 0 where
  round_robin weighted least_latency primary_fallback : Policy

pub record Entry : Type 0 where
  pub id : String
  pub url : String
  pub weight : ℕ
  pub priority : ℕ
  pub enabled : Bool

pub record Endpoint : Type 0 where
  pub id : Option String
  pub url : String
  pub weight : Option ℕ
  pub priority : Option ℕ

pub record Config : Type 0 where
  pub endpoints : List Endpoint
  pub policy : Option Policy
  pub max_retries : Option ℕ

pub record Manager : Type 0 where
  pub entries : List Entry
  pub policy : Policy
  pub max_retries : ℕ
  pub rr_index : ℕ

-- `getEndpointStatus`: `none` where there is no monitor, or no such endpoint.
pub record Health : Type 0 where
  pub unhealthy : Bool
  pub average_latency_ms : Option ℕ

abbrev pub Monitor : Type 0
Monitor = String → Option Health

-- A draw of `Math.random`, as a fraction.
pub record Draw : Type 0 where
  pub num : ℕ
  pub den : ℕ

unfoldable pub entries_from : ℕ → List Endpoint → List Entry
entries_from i [] = []
entries_from i (ep ∷ eps) =
    record {
      id = or_else ep.id ep.url;
      url = ep.url;
      weight = or_else ep.weight 1;
      priority = or_else ep.priority i;
      enabled = true;
    }
    ∷ entries_from (suc i) eps

unfoldable pub new_manager : Config → Manager
unfolding entries_from
new_manager c = record {
  entries = entries_from 0 c.endpoints;
  policy = or_else c.policy round_robin;
  max_retries = or_else c.max_retries 2;
  rr_index = 0;
}

abbrev pub is_unhealthy : Monitor → String → Bool
is_unhealthy monitor id = elim (monitor id) [ none ↦ false | some h ↦ h.unhealthy ]

-- `skipped.has(id)`
abbrev pub is_skipped : List String → String → Bool
is_skipped skipped id = any (λ s. str_eq s id) skipped

unfoldable pub candidates : Monitor → List Entry → List String → List Entry
candidates monitor entries skipped =
    keep (λ e. not (is_unhealthy monitor e.id))
      (keep (λ e. e.enabled && not (is_skipped skipped e.id)) entries)

unfoldable pub total_weight : List Entry → ℕ
total_weight [] = 0
total_weight (e ∷ es) = e.weight + total_weight es

-- The loop of 'weighted': `drawn / den` is the draw times the total, `passed` the weight before `e`.
unfoldable pub pick_weighted : ℕ → ℕ → ℕ → Entry → List Entry → Entry
pick_weighted drawn den passed e [] = e
pick_weighted drawn den passed e (f ∷ es) =
    let rest = pick_weighted drawn den (passed + e.weight) f es in
    if leb drawn (den * (passed + e.weight)) then e else rest

abbrev pub latency : Monitor → Entry → Option ℕ
latency monitor e = elim (monitor e.id) [ none ↦ none | some h ↦ h.average_latency_ms ]

-- `cMs < bMs`, where a missing latency is `Infinity`.
unfoldable pub is_faster : Option ℕ → Option ℕ → Bool
is_faster none b = false
is_faster (some c) none = true
is_faster (some c) (some b) = ltb c b

unfoldable pub fastest : Monitor → Entry → List Entry → Entry
unfolding is_faster
fastest monitor best [] = best
fastest monitor best (e ∷ es) =
    fastest monitor (if is_faster (latency monitor e) (latency monitor best) then e else best) es

-- The sort by priority, which is stable.
unfoldable pub insert : Entry → List Entry → List Entry
insert e [] = e ∷ []
insert e (f ∷ es) =
    let rest = insert e es in if leb e.priority f.priority then e ∷ f ∷ es else f ∷ rest

unfoldable pub sort : List Entry → List Entry
unfolding insert
sort [] = []
sort (e ∷ es) = insert e (sort es)

abbrev pub head_or : Entry → List Entry → Entry
head_or e [] = e
head_or e (f ∷ es) = f

-- `pick`, of a pool that is not empty, and the new `rrIndex`.
unfoldable pub pick : Policy → Monitor → Draw → ℕ → Entry → List Entry → Entry × ℕ
unfolding pick_weighted total_weight fastest sort
pick round_robin monitor draw rr e es =
    (or_else (get_elem? (e ∷ es) (rr % length (e ∷ es))) e, rr + 1)
pick weighted monitor draw rr e es =
    (pick_weighted (draw.num * total_weight (e ∷ es)) draw.den 0 e es, rr)
pick least_latency monitor draw rr e es =
    let with_data = keep (λ x. is_some (latency monitor x)) (e ∷ es) in
    (elim with_data [ [] ↦ e | f ∷ fs ↦ fastest monitor f fs ], rr)
pick primary_fallback monitor draw rr e es = (head_or e (sort (e ∷ es)), rr)

unfoldable pub get_active_endpoint : Manager → Monitor → Draw → Option Entry × Manager
unfolding candidates pick
get_active_endpoint m monitor draw = elim (candidates monitor m.entries []) [
  | [] ↦ (none, m)
  | e ∷ es ↦
      let (x, rr) = pick m.policy monitor draw m.rr_index e es in
      (some x, record m { rr_index = rr })
]

pub record World (A : Type 0) : Type 0 where
  pub monitor : ℕ → Monitor
  pub draw : ℕ → Draw
  pub fn : ℕ → String → Outcome String A

-- The outcome of `execute`, the endpoints for which it called `fn`, and the new `rrIndex`.
pub record Run (A : Type 0) : Type 0 where
  pub outcome : Outcome String A
  pub tried : List Entry
  pub rr_index : ℕ

module _ {A : Type 0} (world : World A) (policy : Policy) (entries : List Entry) where
  -- The loop of `execute`, from an attempt on, with the number of those that are left.
  unfoldable pub attempts_from : ℕ → ℕ → List String → Option String → ℕ → Run A
  attempts_from zero i skipped last rr = record {
    outcome = err (or_else last "No available endpoints");
    tried = [];
    rr_index = rr;
  }
  attempts_from (suc k) i skipped last rr = elim (candidates (world.monitor i) entries skipped) [
    | [] ↦ record {
      outcome = err (or_else last "No available endpoints");
      tried = [];
      rr_index = rr;
    }
    | e ∷ es ↦
        let (x, rr') = pick policy (world.monitor i) (world.draw i) rr e es in
        elim (world.fn i x.url) [
          | ok a ↦ record { outcome = ok a; tried = x ∷ []; rr_index = rr' }
          | err message ↦
              let rest = attempts_from k (i + 1) (skipped ++ x.id ∷ []) (some message) rr' in
              record rest { tried = x ∷ rest.tried }
        ]
  ]

abbrev pub execute : {A : Type 0} → World A → Manager → Run A
execute world m = attempts_from world m.policy m.entries (suc m.max_retries) 0 [] none m.rr_index

unfoldable pub set_policy : Manager → Policy → Manager
set_policy m p = record m { policy = p; rr_index = 0 }

-- The first entry with the id gets the flag.
unfoldable pub set_enabled : String → Bool → List Entry → List Entry
set_enabled id b [] = []
set_enabled id b (e ∷ es) =
    let rest = set_enabled id b es in
    if str_eq e.id id then record e { enabled = b } ∷ es else e ∷ rest

abbrev pub enable_endpoint : Manager → String → Manager
enable_endpoint m id = record m { entries = set_enabled id true m.entries }

abbrev pub disable_endpoint : Manager → String → Manager
disable_endpoint m id = record m { entries = set_enabled id false m.entries }
