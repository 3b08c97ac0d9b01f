-- ===== src/Lifecycle/History.antt =====
-- The invariant of TransactionLifecycleManager (src/transactions/transactionLifecycleManager.ts).
use axionvera_sdk.Prelude.{
  ℕ, String, ◌≤◌, ◌≡◌, refl, ap, inl, inr, ◌≢◌, true, Option, some, List, [], ◌∷◌, arith, Outcome,
  ok, err, or_else, length, Bool-cases, Option-cases,
}
use axionvera_sdk.Prelude.Dict.{
  Dict, get, set, has, Holds, Holds-set, Holds-delete, Holds-get, IsDistinct, set-IsDistinct,
  delete-IsDistinct,
}
use axionvera_sdk.Lifecycle.State.{State, failed, Error, assert_transition, can_transition, rank}
use axionvera_sdk.Lifecycle.Events.{Value}
use axionvera_sdk.Lifecycle.Manager.{
  Tracked, Manager, Reply, advance, create, transition, fail, remove, clear, on_event, off_event,
  new_manager,
}
use axionvera_sdk.Lifecycle.Calls.{
  Call, creates, moves, fails, removes, clears, subscribes, unsubscribes, after, step, run,
}
use axionvera_sdk.Lifecycle.Trace.{
  Trace, start, more, visited, route_to, length-Trace-le, visited-Trace,
}

-- What a record under a key holds: its own id, and a history that is the trace of its state.
abbrev pub IsTraced : String → Tracked → Type 0
IsTraced id r = (r.id ≡ id) × Trace r.history r.state

pub record IsConsistent (m : Manager) : Type 0 where
  pub traced : Holds IsTraced m.records
  pub distinct : IsDistinct m.records

rank-le : (s : State) → rank s ≤ 10
rank-le s = ground arith

set-IsConsistent :
    (m n : Manager) (id : String) (r : Tracked)
    → IsConsistent m
    → n.records ≡ set id r m.records
    → IsTraced id r
    → IsConsistent n
set-IsConsistent m n id r v e t = record {
  traced = rw e (Holds-set IsTraced id r m.records t v.traced);
  distinct = rw e (set-IsDistinct id r m.records v.distinct);
}

-- What a successful `transition` has found and written.
pub transition-ok :
    (m : Manager) (id : String) (to : State) (details : Option (Dict Value)) (now : ℕ)
    (reply : Reply)
    → transition m id to details now ≡ ok reply
    → (r : Tracked) × (get id m.records ≡ some r)
      × (can_transition r.state to ≡ true)
      × (reply.manager ≡ record m { records = set id (advance r to details now) m.records })
      × (reply.tracked ≡ advance r to details now)
unfolding transition assert_transition
transition-ok m id to details now reply h = elim (Option-cases (get id m.records)) [
  | inl e ↦ ground arith
  | inr (r, e) ↦ elim (Bool-cases (can_transition r.state to)) [
    | inl legal ↦ (r, e, legal, ground arith, ground arith)
    | inr illegal ↦ ground arith
  ]
]

advance-IsTraced :
    (r : Tracked) (id : String) (to : State) (details : Option (Dict Value)) (now : ℕ)
    → IsTraced id r
    → can_transition r.state to ≡ true
    → IsTraced id (advance r to details now)
unfolding advance
advance-IsTraced r id to details now (same_id, tr) legal =
    (same_id, more r.history _ _ r.state to tr legal refl refl refl)

transition-IsConsistent :
    (m : Manager) (id : String) (to : State) (details : Option (Dict Value)) (now : ℕ)
    (o : Outcome Error Reply)
    → transition m id to details now ≡ o
    → IsConsistent m
    → IsConsistent (after m o)
unfolding after
transition-IsConsistent m id to details now (err e) h v = v
transition-IsConsistent m id to details now (ok reply) h v =
    let (r, found, legal, written, _) = transition-ok m id to details now reply h in
    set-IsConsistent m reply.manager id (advance r to details now) v
      (ap (λ (n : Manager). n.records) written)
      (advance-IsTraced r id to details now (Holds-get IsTraced id r m.records v.traced found)
        legal)

create-IsConsistent :
    (m : Manager) (wanted : Option String) (metadata : Dict Value) (fresh : String) (now : ℕ)
    → IsConsistent m
    → IsConsistent (after m (create m wanted metadata fresh now))
unfolding create after
create-IsConsistent m wanted metadata fresh now v =
    elim (Bool-cases (has (or_else wanted fresh) m.records)) [
      | inl e ↦ rw e v
      | inr e ↦ rw e (record {
        traced = Holds-set IsTraced _ _ m.records (refl, start _ _ refl refl refl) v.traced;
        distinct = set-IsDistinct _ _ m.records v.distinct;
      })
    ]

-- Every call keeps each record under its own id with a history that is a trace of legal moves from
-- the creation to its state.
pub step-IsConsistent : (m : Manager) (c : Call) → IsConsistent m → IsConsistent (step m c)
unfolding step fail remove clear on_event off_event
step-IsConsistent m (creates wanted metadata fresh now) v =
    create-IsConsistent m wanted metadata fresh now v
step-IsConsistent m (moves id to details now) v =
    transition-IsConsistent m id to details now _ refl v
step-IsConsistent m (fails id error details now) v =
    transition-IsConsistent m id failed _ now _ refl v
step-IsConsistent m (removes id) v = record {
  traced = Holds-delete IsTraced id m.records v.traced;
  distinct = delete-IsDistinct id m.records v.distinct;
}
step-IsConsistent m clears v = record { traced = tt; distinct = tt }
step-IsConsistent m (subscribes f) v = record { traced = v.traced; distinct = v.distinct }
step-IsConsistent m (unsubscribes n) v = record { traced = v.traced; distinct = v.distinct }

pub run-IsConsistent : (m : Manager) (cs : List Call) → IsConsistent m → IsConsistent (run m cs)
unfolding run
run-IsConsistent m [] v = v
run-IsConsistent m (c ∷ cs) v = run-IsConsistent (step m c) cs (step-IsConsistent m c v)

-- After any calls to a new manager, the record of each tracked transaction has at most eleven history
-- entries; unless the transaction failed, its history passed exactly the states of the forward order
-- from `created` up to its state, each once, so a completed transaction went through all ten.
pub run-history :
    (cs : List Call) (id : String) (r : Tracked)
    → get id (run new_manager cs).records ≡ some r
    → (length r.history ≤ 11) × (r.state ≢ failed → visited r.history ≡ route_to r.state)
run-history cs id r h =
    let v = run-IsConsistent new_manager cs (record { traced = tt; distinct = tt }) in
    let (_, tr) = Holds-get IsTraced id r _ v.traced h in
    (omega (arith, length-Trace-le tr, rank-le r.state), visited-Trace tr)
