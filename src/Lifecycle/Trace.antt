-- ===== src/Lifecycle/Trace.antt =====
-- The history of a tracked transaction is the trace of the moves that led to its state.
use axionvera_sdk.Prelude.{
  ◌+◌, ◌≤◌, ◌≡◌, sym, ap, ◌≢◌, true, none, some, List, [], ◌∷◌, ◌++◌, map, arith, length,
  length-append,
}
use axionvera_sdk.Lifecycle.State.{
  State, created, simulating, simulated, signing, signed, submitting, submitted, confirming,
  confirmed, completed, failed, can_transition, can_transition-rank, can_transition_iff, rank,
}
use axionvera_sdk.Lifecycle.Manager.{Transition}
use mathlib.Core.List.{map-append}

-- `Trace history state`: the history starts with the creation, each entry starts where the one before
-- it ended, each move is legal, and the last one ends in `state`.
pub data Trace : List Transition → State → Type 0 where
  start :
      (h : List Transition) (e : Transition)
      → h ≡ e ∷ []
      → e.from ≡ none
      → e.to ≡ created
      → Trace h created
  more :
      (h h' : List Transition) (e : Transition) (s t : State)
      → Trace h s
      → can_transition s t ≡ true
      → e.from ≡ some s
      → e.to ≡ t
      → h' ≡ h ++ e ∷ []
      → Trace h' t

-- The states that a history passes, in order.
abbrev pub visited : List Transition → List State
visited = map λ e. e.to

-- The states of the forward order up to a state.
unfoldable pub route_to : State → List State
route_to created = created ∷ []
route_to simulating = created ∷ simulating ∷ []
route_to simulated = created ∷ simulating ∷ simulated ∷ []
route_to signing = created ∷ simulating ∷ simulated ∷ signing ∷ []
route_to signed = created ∷ simulating ∷ simulated ∷ signing ∷ signed ∷ []
route_to submitting = created ∷ simulating ∷ simulated ∷ signing ∷ signed ∷ submitting ∷ []
route_to submitted =
    created ∷ simulating ∷ simulated ∷ signing ∷ signed ∷ submitting ∷ submitted ∷ []
route_to confirming =
    created ∷ simulating ∷ simulated ∷ signing ∷ signed ∷ submitting ∷ submitted ∷ confirming ∷ []
route_to confirmed =
    created ∷ simulating ∷ simulated ∷ signing ∷ signed ∷ submitting ∷ submitted ∷ confirming
    ∷ confirmed ∷ []
route_to completed =
    created ∷ simulating ∷ simulated ∷ signing ∷ signed ∷ submitting ∷ submitted ∷ confirming
    ∷ confirmed ∷ completed ∷ []
route_to failed = []

route_to-next :
    (s t : State) → can_transition s t ≡ true → t ≢ failed → route_to t ≡ route_to s ++ t ∷ []
unfolding route_to can_transition
route_to-next created t h n = grind arith
route_to-next _ t h n = grind arith

pub length-Trace-le : {h : List Transition} {s : State} → Trace h s → length h ≤ rank s + 1
length-Trace-le (start h e p _ _) = omega (arith, ap length p)
length-Trace-le (more h h' e s t tr ok_move _ _ p) = omega (
  arith,
  ap length p,
  length-append h (e ∷ []),
  length-Trace-le tr,
  can_transition-rank s t ok_move,
)

not-failed_of_can_transition : (s t : State) → can_transition s t ≡ true → s ≢ failed
not-failed_of_can_transition s t h = ((can_transition_iff s t).0 h).1

pub visited-Trace :
    {h : List Transition} {s : State} → Trace h s → s ≢ failed → visited h ≡ route_to s
unfolding route_to
visited-Trace (start h e p _ q) n = rw (p, q)
visited-Trace (more h h' e s t tr ok_move _ q p) n =
    rw
      (
        p,
        map-append (λ (e : Transition). e.to) h (e ∷ []),
        visited-Trace tr (not-failed_of_can_transition s t ok_move),
        q,
      )
      (sym (route_to-next s t ok_move n))
