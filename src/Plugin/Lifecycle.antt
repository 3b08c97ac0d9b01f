-- ===== src/Plugin/Lifecycle.antt =====
-- src/plugin/lifecycle.ts: the table of the legal moves of a plugin.
use axionvera_sdk.Prelude.{
  ◌≡◌, refl, String, Bool, List, [], ◌∷◌, any, if◌then◌else◌, same, Outcome, ok, err,
}
use axionvera_sdk.Plugin.Types.{
  State, unregistered, registered, installed, active, disabled, error, uninstalled, State-discrete,
  Error, invalid_transition,
}

abbrev pub is : State → State → Bool
is = same State-discrete

unfoldable pub valid_transitions : State → List State
valid_transitions unregistered = registered ∷ []
valid_transitions registered = installed ∷ uninstalled ∷ []
valid_transitions installed = active ∷ disabled ∷ uninstalled ∷ []
valid_transitions active = disabled ∷ uninstalled ∷ error ∷ []
valid_transitions disabled = active ∷ uninstalled ∷ error ∷ []
valid_transitions error = registered ∷ uninstalled ∷ []
valid_transitions uninstalled = []

unfoldable pub is_valid_transition : State → State → Bool
is_valid_transition current target = any (is target) (valid_transitions current)

unfoldable pub transition_state : String → State → State → Outcome Error State
transition_state plugin_id current target =
    if is_valid_transition current target
    then ok target
    else err (invalid_transition plugin_id current target)

-- A new plugin can be registered.
pub transition_state-registered :
    (id : String) → transition_state id unregistered registered ≡ ok registered
unfolding transition_state is_valid_transition valid_transitions State-discrete
transition_state-registered id = refl
