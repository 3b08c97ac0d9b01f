-- ===== src/Lifecycle/State.antt =====
-- src/lifecycle/types.ts and stateMachine.ts: the states of a transaction and the moves between them.
use axionvera_sdk.Prelude.{
  ℕ, ◌+◌, ◌<◌, ◌≡◌, ◌⊎◌, ◌↔◌, Bool, true, false, List, [], ◌∷◌, ◌++◌, String, ◌≢◌, In, arith,
  Outcome, require, any, same, if◌then◌else◌,
}

pub data State : Type 0 where
  created simulating simulated signing signed submitting submitted confirming confirmed : State
  completed failed : State

unfoldable pub State-discrete : Discrete State
State-discrete = hlevel

-- `===` on two states.
abbrev pub same_state : State → State → Bool
same_state = same State-discrete

abbrev pub includes : List State → State → Bool
includes xs s = any (λ x. same_state x s) xs

abbrev pub terminal_states : List State
terminal_states = completed ∷ failed ∷ []

abbrev pub lifecycle_transitions : State → List State
lifecycle_transitions created = simulating ∷ []
lifecycle_transitions simulating = simulated ∷ []
lifecycle_transitions simulated = signing ∷ []
lifecycle_transitions signing = signed ∷ []
lifecycle_transitions signed = submitting ∷ []
lifecycle_transitions submitting = submitted ∷ []
lifecycle_transitions submitted = confirming ∷ []
lifecycle_transitions confirming = confirmed ∷ []
lifecycle_transitions confirmed = completed ∷ []
lifecycle_transitions completed = []
lifecycle_transitions failed = []

unfoldable pub is_terminal : State → Bool
unfolding State-discrete
is_terminal s = includes terminal_states s

unfoldable pub can_transition : State → State → Bool
unfolding State-discrete is_terminal
can_transition from to =
    if is_terminal from
    then false
    else if same_state to failed
    then true
    else includes (lifecycle_transitions from) to

pub data Error : Type 0 where
  invalid_transition : State → State → Error
  not_tracked : String → Error
  already_tracked : String → Error

unfoldable pub assert_transition : State → State → Outcome Error (Unit {0})
unfolding can_transition
assert_transition from to = require (can_transition from to) (invalid_transition from to)

unfoldable pub get_allowed_next : State → List State
unfolding is_terminal
get_allowed_next s = if is_terminal s then [] else lifecycle_transitions s ++ failed ∷ []

-- The position of a state in the forward order; a failure ends every order.
abbrev pub rank : State → ℕ
rank created = 0
rank simulating = 1
rank simulated = 2
rank signing = 3
rank signed = 4
rank submitting = 5
rank submitted = 6
rank confirming = 7
rank confirmed = 8
rank completed = 9
rank failed = 10

-- A move is legal exactly from a state that is neither completed nor failed, and either to `failed`
-- or one place forward.
pub can_transition_iff :
    (s t : State)
    → (can_transition s t ≡ true)
      ↔ ((s ≢ completed) × (s ≢ failed) × ((t ≡ failed) ⊎ (rank t ≡ rank s + 1)))
unfolding can_transition
can_transition_iff created t = grind arith
can_transition_iff _ t = grind arith

pub can_transition-rank : (s t : State) → can_transition s t ≡ true → rank s < rank t
unfolding can_transition
can_transition-rank created t h = grind arith
can_transition-rank _ t h = grind arith

-- `getAllowedNext` lists exactly the states to which `canTransition` lets a transaction move.
pub In-get_allowed_next_iff :
    (s t : State) → In t (get_allowed_next s) ↔ (can_transition s t ≡ true)
unfolding get_allowed_next can_transition
In-get_allowed_next_iff created t = grind arith
In-get_allowed_next_iff _ t = grind arith
