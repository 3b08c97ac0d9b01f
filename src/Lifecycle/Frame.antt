-- ===== src/Lifecycle/Frame.antt =====
-- What each call of TransactionLifecycleManager (src/transactions/transactionLifecycleManager.ts)
-- leaves alone, and what it refuses.
use axionvera_sdk.Prelude.{
  ℕ, String, ◌≡◌, refl, ◌⊎◌, inl, inr, ◌↔◌, true, false, Option, none, some, List, [], ◌∷◌, ◌++◌,
  arith, Outcome, ok, err, or_else, Bool-cases, Option-cases, All, In, In-keep_iff, str_eq, eq_iff,
  if◌then◌else◌, same_iff,
}
use axionvera_sdk.Prelude.Dict.{Dict, get, set, has, get-set, get-delete, values}
use axionvera_sdk.Lifecycle.State.{
  State, created, completed, failed, Error, not_tracked, invalid_transition, assert_transition,
  can_transition, can_transition_iff, is_terminal, State-discrete,
}
use axionvera_sdk.Lifecycle.Events.{Value}
use axionvera_sdk.Lifecycle.Manager.{
  Tracked, Manager, Reply, advance, record_move, create, transition, fail, remove, clear, on_event,
  off_event,
}
use axionvera_sdk.Lifecycle.Notice.{
  IsLegal, IsMoved, Reports, AreTold, event_type-Announces, advance-IsMoved, called-AreTold,
}
use axionvera_sdk.Lifecycle.Query.{Query, selected, list}
use axionvera_sdk.Lifecycle.Calls.{
  Call, creates, moves, fails, removes, clears, subscribes, unsubscribes, after, step, run,
}
use axionvera_sdk.Lifecycle.History.{transition-ok}

-- The calls that stop tracking a transaction.
abbrev pub Forgets : String → Call → Type 0
Forgets id (removes j) = j ≡ id
Forgets id clears = Unit
Forgets id _ = ⊥

not-can_transition_of_terminal : (s t : State) → is_terminal s ≡ true → can_transition s t ≡ false
unfolding can_transition
not-can_transition_of_terminal s t h = ground arith

transition-keeps :
    (m : Manager) (id j : String) (to : State) (details : Option (Dict Value)) (now : ℕ)
    (r : Tracked) (o : Outcome Error Reply)
    → transition m j to details now ≡ o
    → get id m.records ≡ some r
    → is_terminal r.state ≡ true
    → get id (after m o).records ≡ some r
unfolding after
transition-keeps m id j to details now r (err e) h g t = g
transition-keeps m id j to details now r (ok reply) h g t =
    let (q, found, legal, written, _) = transition-ok m j to details now reply h in
    elim (Bool-cases (str_eq j id)) [
      | inl same ↦
          let q_is_r : q ≡ r = ground (arith, eq_iff j id) in
          let blocked = not-can_transition_of_terminal r.state to t in ground arith
      | inr other ↦ ground (arith, get-set j id (advance q to details now) m.records)
    ]

create-keeps :
    (m : Manager) (id : String) (wanted : Option String) (metadata : Dict Value) (fresh : String)
    (now : ℕ) (r : Tracked)
    → get id m.records ≡ some r
    → get id (after m (create m wanted metadata fresh now)).records ≡ some r
unfolding create after
create-keeps m id wanted metadata fresh now r g =
    elim (Bool-cases (has (or_else wanted fresh) m.records)) [
      | inl e ↦ rw e g
      | inr e ↦ rw (e, get-set) (ground (arith, eq_iff (or_else wanted fresh) id))
    ]

step-keeps_terminal :
    (m : Manager) (id : String) (r : Tracked) (c : Call)
    → ¬ Forgets id c
    → is_terminal r.state ≡ true
    → get id m.records ≡ some r
    → get id (step m c).records ≡ some r
unfolding step fail remove clear on_event off_event
step-keeps_terminal m id r (creates wanted metadata fresh now) n t g =
    create-keeps m id wanted metadata fresh now r g
step-keeps_terminal m id r (moves j to details now) n t g =
    transition-keeps m id j to details now r _ refl g t
step-keeps_terminal m id r (fails j error details now) n t g =
    transition-keeps m id j failed _ now r _ refl g t
step-keeps_terminal m id r (removes j) n t g = rw get-delete (ground (arith, eq_iff j id))
step-keeps_terminal m id r clears n t g = absurd (n tt)
step-keeps_terminal m id r (subscribes f) n t g = g
step-keeps_terminal m id r (unsubscribes k) n t g = g

-- A transaction that is completed or failed keeps its whole record, history and error included, over
-- any calls that neither remove it nor clear the manager: further moves, failures and attempts to
-- create it again are refused.
pub run-keeps_terminal :
    (m : Manager) (id : String) (r : Tracked) (cs : List Call)
    → All (λ c. ¬ Forgets id c) cs
    → is_terminal r.state ≡ true
    → get id m.records ≡ some r
    → get id (run m cs).records ≡ some r
unfolding run
run-keeps_terminal m id r [] n t g = g
run-keeps_terminal m id r (c ∷ cs) (n, ns) t g =
    run-keeps_terminal (step m c) id r cs ns t (step-keeps_terminal m id r c n t g)

-- `transition` throws exactly for an id that is not tracked and for a move that is not legal, each with its own
-- error. Otherwise the record has moved, with one entry more in its history, every other record and the listeners
-- stay, and one event reports the move: it reaches the listeners that have no filter or one that admits it, and no
-- others, each once and in the order of their subscriptions.
pub transition_cases :
    (m : Manager) (id : String) (to : State) (details : Option (Dict Value)) (now : ℕ)
    → ((get id m.records ≡ none) × (transition m id to details now ≡ err (not_tracked id)))
      ⊎ (((r : Tracked) × (get id m.records ≡ some r)
            × (¬ IsLegal r.state to)
            × (transition m id to details now ≡ err (invalid_transition r.state to)))
          ⊎ ((r : Tracked) × (reply : Reply) × (get id m.records ≡ some r)
              × IsLegal r.state to
              × (transition m id to details now ≡ ok reply)
              × IsMoved r to details now reply.tracked
              × (reply.manager.emitter ≡ m.emitter)
              × ((j : String)
                  → get j reply.manager.records
                    ≡ (if str_eq id j then some reply.tracked else get j m.records))
              × Reports id r reply.tracked to details now reply.event
              × AreTold reply.event m.emitter.listeners reply.called))
unfolding transition assert_transition
transition_cases m id to details now = elim (Option-cases (get id m.records)) [
  | inl e ↦ inl (e, ground arith)
  | inr (r, e) ↦ elim (Bool-cases (can_transition r.state to)) [
    | inl legal ↦
        let reply = record_move m id r to details now in
        inr (
          inr (
            r,
            reply,
            e,
            (can_transition_iff r.state to).0 legal,
            rw (e, legal),
            advance-IsMoved r to details now,
            refl,
            (λ j. get-set id j _ m.records),
            record {
              type = event_type-Announces to;
              same_id = refl;
              from = refl;
              there = refl;
              at = refl;
              same_details = refl;
              same_error = refl;
            },
            called-AreTold reply.event m.emitter.listeners,
          ))
    | inr illegal ↦ inr (
        inl (
          r,
          e,
          (λ fine. ground (arith, illegal, (can_transition_iff r.state to).1 fine)),
          rw (e, illegal),
        ))
  ]
]

can_transition-failed : (s : State) → is_terminal s ≡ false → can_transition s failed ≡ true
unfolding can_transition
can_transition-failed created h = refl
can_transition-failed _ h = ground arith

-- `fail` works from every state that is not final.
pub fail-ok :
    (m : Manager) (id : String) (error : Value) (details : Option (Dict Value)) (now : ℕ)
    (r : Tracked)
    → get id m.records ≡ some r
    → is_terminal r.state ≡ false
    → (reply : Reply) × (fail m id error details now ≡ ok reply)
      × (reply.tracked.state ≡ failed)
      × (reply.tracked.history
          ≡ r.history
            ++ record {
              from = some r.state;
              to = failed;
              timestamp = now;
              details = some (set "error" error (or_else details []));
            }
              ∷ [])
unfolding fail transition assert_transition advance
fail-ok m id error details now r g t =
    let legal : can_transition r.state failed ≡ true = can_transition-failed r.state t in
    (record_move m id r failed _ now, rw (g, legal) refl, refl, refl)

is_terminal_iff : (s : State) → (is_terminal s ≡ true) ↔ ((s ≡ completed) ⊎ (s ≡ failed))
unfolding is_terminal
is_terminal_iff created = grind arith
is_terminal_iff _ = grind arith

selected_iff :
    (q : Query) (r : Tracked)
    → (selected q r ≡ true) ↔ (
        ((q.state ≡ none) ⊎ (q.state ≡ some r.state))
        × ((q.terminal_only ≡ false) ⊎ ((r.state ≡ completed) ⊎ (r.state ≡ failed))))
unfolding selected
selected_iff q r = elim (Option-cases q.state) [
  | inl e ↦ ground (arith, is_terminal_iff r.state)
  | inr (s, e) ↦ ground (arith, is_terminal_iff r.state, same_iff State-discrete r.state s)
]

-- `list` returns exactly the tracked records that have the queried state, if one is given, and are
-- final, if only those are asked for.
pub In-list_iff :
    (m : Manager) (q : Query) (r : Tracked)
    → In r (list m q) ↔ (
        In r (values m.records)
        × ((q.state ≡ none) ⊎ (q.state ≡ some r.state))
        × ((q.terminal_only ≡ false) ⊎ ((r.state ≡ completed) ⊎ (r.state ≡ failed))))
unfolding list
In-list_iff m q r = ground (arith, In-keep_iff (selected q) r (values m.records), selected_iff q r)
