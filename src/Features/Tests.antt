-- ===== src/Features/Tests.antt =====
-- The feature flag service on concrete flags (src/features/).
use axionvera_sdk.Prelude.{Bool, true, false, none, some, List, [], ◌∷◌, ◌≡◌, refl, ◌↔◌, In}
use axionvera_sdk.Prelude.Dict.{get, set, delete}
use axionvera_sdk.Features.Flag.{Definition, PartialPolicy, beta, deprecated, Stability-discrete}
use axionvera_sdk.Features.Policy.{
  staging_policy, resolve_policy_from_environment, merge_policies, last_given, override_policy,
}
use axionvera_sdk.Features.Evaluation.{get_deprecation_warning, filter_by_stability}
use axionvera_sdk.Features.Service.{
  Service, new_service, register, unregister, enable, disable, reset, is_enabled, Call, registers,
  unregisters, disables, resets, sets_policy, set_policy, enables, run, step, get_summary,
  get_enabled_keys,
}
use axionvera_sdk.Features.Story.{status_in, told_all, is_on, is_enabled-told}
use axionvera_sdk.Features.Summary.{In-get_enabled_keys_iff}

features : Unit {0}
unfolding new_service register unregister enable disable reset is_enabled run step get set delete
    Stability-discrete get_summary get_enabled_keys filter_by_stability get_deprecation_warning
    merge_policies last_given set_policy override_policy resolve_policy_from_environment
features = tt

abbrev sunset : Definition
sunset = record {
  key = "sunset";
  name = "Sunset";
  description = "An old flag.";
  default_value = true;
  stability = deprecated;
  since_version = "0.1.0";
  deprecated_in_version = some "1.1.0";
  scheduled_removal_version = none;
  migration_note = some "Use dusk";
}

abbrev small : Service
small = record {
  definitions =
      ("sunset", sunset) ∷ ("dusk", record sunset { key = "dusk"; stability = beta }) ∷ [];
  config = record { policy = staging_policy; overrides = [] };
  overrides = [];
}

warning :
    get_deprecation_warning sunset ≡ some "Feature \"sunset\" is deprecated since v1.1.0. Use dusk."
unfolding features
warning = refl

-- A beta flag whose default value is `true` is off under the default policy.
plugin_system_off : is_enabled (new_service none none) "pluginSystem" ≡ false
unfolding features
plugin_system_off = refl

stable_only :
    get_enabled_keys (new_service none none)
    ≡ "contractReflection" ∷ "xdrValidation" ∷ "telemetry" ∷ "concurrencyControl" ∷ []
unfolding features
stable_only = refl

test_environment : resolve_policy_from_environment (λ s. s) none (some "staging") ≡ staging_policy
unfolding features
test_environment = refl

abbrev only_beta : Bool → PartialPolicy
only_beta b = record { allow_beta = some b; allow_experimental = none; allow_deprecated = none }

abbrev settings : List PartialPolicy
settings = only_beta true ∷ only_beta false ∷ []

abbrev calls : List Call
calls = registers sunset ∷ enables "sunset" ∷ []

-- Registered again after it was enabled and forgotten, the flag has no setting; then it is switched on.
abbrev turns : List Call
turns =
    enables "sunset"
    ∷ unregisters "sunset"
    ∷ registers sunset
    ∷ sets_policy (only_beta false)
    ∷ disables "dusk"
    ∷ enables "sunset"
    ∷ resets "dusk"
    ∷ []

is_enabled-told_example :
    is_enabled (run small turns) "sunset"
    ≡ is_on (told_all "sunset" turns (status_in "sunset" small))
is_enabled-told_example = is_enabled-told small turns "sunset"

turned :
    (is_enabled (run small turns) "sunset" ≡ true) × (is_enabled (run small turns) "dusk" ≡ false)
unfolding features
turned = (refl, refl)

In-get_enabled_keys_iff_example :
    In "sunset" (get_enabled_keys (run (new_service none none) calls))
    ↔ (is_enabled (run (new_service none none) calls) "sunset" ≡ true)
In-get_enabled_keys_iff_example = In-get_enabled_keys_iff none none calls "sunset"
