-- ===== src/Lifecycle/Notice.antt =====
-- What a legal move of TransactionLifecycleManager (src/transactions/transactionLifecycleManager.ts) does to the
-- record, and which listeners of LifecycleEventEmitter (src/events/lifecycleEvents.ts) are called for it.
use mathlib.Core.Option.{some-injective}
use axionvera_sdk.Prelude.{
  sym, subst, ◌∙◌, ℕ, ◌+◌, String, ◌≡◌, ap, cons-ne-nil, refl, ◌⊎◌, inl, inr, ◌↔◌, ◌≢◌, true,
  Option, none, some, List, [], ◌∷◌, ◌++◌, arith, or_else, Bool-cases, any, same, same_iff, In,
  eq_iff,
}
use axionvera_sdk.Prelude.Dict.{Dict, get}
use axionvera_sdk.Lifecycle.State.{State, completed, failed, rank}
use axionvera_sdk.Lifecycle.Events.{
  ErrorInfo, Value, thrown, EventType, EventType-discrete, moved, was_completed, was_failed,
  LifecycleEvent, Filter, passes_id, passes_type, matches_filter, called,
}
use axionvera_sdk.Lifecycle.Manager.{Tracked, advance, failure_of, spread, event_type}

-- From a state that is not final, to `failed` or one place forward.
abbrev pub IsLegal : State → State → Type 0
IsLegal s t = (s ≢ completed) × (s ≢ failed) × ((t ≡ failed) ⊎ (rank t ≡ rank s + 1))

-- The filter asks for no other transaction, and for the type of the event, if it asks for types.
abbrev pub Admits : Filter → LifecycleEvent → Type 0
Admits f ev =
    ((f.transaction_id ≡ none)
      ⊎ ((f.transaction_id ≡ some "") ⊎ (f.transaction_id ≡ some ev.transaction_id)))
    × ((f.types ≡ none)
        ⊎ ((ts : List EventType) × (f.types ≡ some ts) × ((ts ≡ []) ⊎ In ev.type ts)))

-- The listener has no filter, or one that admits the event.
abbrev pub Wants : Option Filter → LifecycleEvent → Type 0
Wants none ev = Unit
Wants (some f) ev = Admits f ev

-- The numbers are those of the listeners that want the event, each once and in the order of the listeners.
abbrev pub AreTold : LifecycleEvent → List (ℕ × Option Filter) → List ℕ → Type 0
AreTold ev [] ns = ns ≡ []
AreTold ev ((n, f) ∷ ls) ns =
    ((rest : List ℕ) × (ns ≡ n ∷ rest) × Wants f ev × AreTold ev ls rest)
    ⊎ ((¬ Wants f ev) × AreTold ev ls ns)

-- The type of the event for a move to a state.
pub record Announces (to : State) (type : EventType) : Type 0 where
  pub failure : to ≡ failed → type ≡ was_failed
  pub completion : to ≡ completed → type ≡ was_completed
  pub other_move : to ≢ failed → to ≢ completed → type ≡ moved

-- The record `t` is `r` after a move to `to` at `now`.
pub record IsMoved (r : Tracked) (to : State) (details : Option (Dict Value)) (now : ℕ)
    (t : Tracked) : Type 0 where
  pub same_id : t.id ≡ r.id
  pub there : t.state ≡ to
  pub same_start : t.created_at ≡ r.created_at
  pub stamped : t.updated_at ≡ now
  pub one_entry :
      t.history
      ≡ r.history
        ++ record { from = some r.state; to = to; timestamp = now; details = details } ∷ []
  pub no_details : details ≡ none → t.metadata ≡ r.metadata
  pub no_failure : to ≢ failed → t.error ≡ r.error
  pub failure :
      (d : Dict Value) (e : ErrorInfo)
      → to ≡ failed
      → details ≡ some d
      → get "error" d ≡ some (thrown e)
      → t.error ≡ some e

-- The event tells of the move from the state of `r` to `to`, and the record `t` after it.
pub record Reports (id : String) (r t : Tracked) (to : State) (details : Option (Dict Value))
    (now : ℕ) (ev : LifecycleEvent) : Type 0 where
  pub type : Announces to ev.type
  pub same_id : ev.transaction_id ≡ id
  pub from : ev.previous_state ≡ some r.state
  pub there : ev.state ≡ to
  pub at : ev.timestamp ≡ now
  pub same_details : ev.details ≡ details
  pub same_error : ev.error ≡ t.error

pub event_type-Announces : (to : State) → Announces to (event_type to)
unfolding event_type
event_type-Announces failed = record {
  failure = λ h. refl;
  completion = λ h. absurd cc;
  other_move = λ h k. absurd (h refl);
}
event_type-Announces completed = record {
  failure = λ h. absurd cc;
  completion = λ h. refl;
  other_move = λ h k. absurd (k refl);
}
event_type-Announces _ = record {
  failure = λ h. absurd cc;
  completion = λ h. absurd cc;
  other_move = λ h k. refl;
}

any_type_iff :
    (ts : List EventType) (t : EventType)
    → (any (λ u. same EventType-discrete u t) ts ≡ true) ↔ In t ts
any_type_iff [] t = ((λ h. cc), (λ h. absurd h))
any_type_iff (u ∷ us) t = ground (arith, any_type_iff us t, same_iff EventType-discrete u t)

passes_id_iff :
    (o : Option String) (id : String)
    → (passes_id o id ≡ true) ↔ ((o ≡ none) ⊎ ((o ≡ some "") ⊎ (o ≡ some id)))
unfolding passes_id
passes_id_iff none id = ground arith
passes_id_iff (some want) id = ground (arith, eq_iff want "", eq_iff want id)

passes_type_iff :
    (o : Option (List EventType)) (t : EventType)
    → (passes_type o t ≡ true)
      ↔ ((o ≡ none) ⊎ ((ts : List EventType) × (o ≡ some ts) × ((ts ≡ []) ⊎ In t ts)))
unfolding passes_type
passes_type_iff none t = ((λ h. inl refl), (λ h. refl))
passes_type_iff (some []) t = ((λ h. inr ([], refl, inl refl)), (λ h. refl))
passes_type_iff (some (u ∷ us)) t = (
  (λ h. inr (u ∷ us, refl, inr ((any_type_iff (u ∷ us) t).0 h))),
  (λ h. elim h [
    | inl k ↦ absurd cc
    | inr (ts, is, want) ↦
        let listed : ts ≡ u ∷ us = sym (some-injective (u ∷ us) ts is) in
        elim want [
          | inl k ↦ absurd (cons-ne-nil u us (sym listed ∙ k))
          | inr m ↦ (any_type_iff (u ∷ us) t).1 (subst (In t) listed m)
        ]
  ]),
)

matches_filter_iff :
    (ev : LifecycleEvent) (o : Option Filter) → (matches_filter ev o ≡ true) ↔ Wants o ev
unfolding matches_filter
matches_filter_iff ev none = ((λ h. tt), (λ h. refl))
matches_filter_iff ev (some f) =
    ground
      (arith, passes_id_iff f.transaction_id ev.transaction_id, passes_type_iff f.types ev.type)

pub called-AreTold :
    (ev : LifecycleEvent) (ls : List (ℕ × Option Filter)) → AreTold ev ls (called ev ls)
unfolding called
called-AreTold ev [] = refl
called-AreTold ev ((n, f) ∷ ls) = elim (Bool-cases (matches_filter ev f)) [
  | inl e ↦ rw e (inl (called ev ls, refl, (matches_filter_iff ev f).0 e, called-AreTold ev ls))
  | inr e ↦
      rw e (inr ((λ w. ground (arith, e, (matches_filter_iff ev f).1 w)), called-AreTold ev ls))
]

failure_of_other :
    (to : State) (details : Option (Dict Value)) → to ≢ failed → failure_of to details ≡ none
unfolding failure_of
failure_of_other failed details h = absurd (h refl)
failure_of_other _ details h = refl

failure_of_thrown :
    (to : State) (details : Option (Dict Value)) (d : Dict Value) (e : ErrorInfo)
    → to ≡ failed
    → details ≡ some d
    → get "error" d ≡ some (thrown e)
    → failure_of to details ≡ some e
unfolding failure_of
failure_of_thrown to details d e h k g = rw (h, k) (rw (failure_of, g) refl)

abbrev error_after : Tracked → Option ErrorInfo → Option ErrorInfo
error_after r o = elim o [ none ↦ r.error | some e ↦ some e ]

pub advance-IsMoved :
    (r : Tracked) (to : State) (details : Option (Dict Value)) (now : ℕ)
    → IsMoved r to details now (advance r to details now)
unfolding advance spread
advance-IsMoved r to details now = record {
  same_id = refl;
  there = refl;
  same_start = refl;
  stamped = refl;
  one_entry = refl;
  no_details = λ h. ap (λ o. spread r.metadata (or_else o [])) h;
  no_failure = λ h. ap (error_after r) (failure_of_other to details h);
  failure = λ d e h k g. ap (error_after r) (failure_of_thrown to details d e h k g);
}
