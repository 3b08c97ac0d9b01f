-- ===== src/Features/Service.antt =====
-- src/features/flags.ts: the service that evaluates and manages flags.
use axionvera_sdk.Prelude.{
  String, Bool, true, false, Option, none, some, List, [], ◌∷◌, map, keep, length, if◌then◌else◌,
  or_else, Outcome, ok, err, ◌>>=◌, require,
}
use axionvera_sdk.Prelude.Dict.{Dict, get, set, delete, has, values}
use axionvera_sdk.Features.Flag.{
  Stability, stable, beta, experimental, deprecated, same_stability, Definition, Policy,
  PartialPolicy, Config, FlagState, FlagsSummary, default_policy,
}
use axionvera_sdk.Features.Policy.{override_policy}
use axionvera_sdk.Features.BuiltIn.{built_in_feature_flags}

pub record Service : Type 0 where
  pub definitions : Dict Definition
  pub config : Config
  pub overrides : Dict Bool

pub data Error : Type 0 where
  already_registered : String → Error
  not_registered : String → Error

-- `for (const flag of flags) definitions.set(flag.key, flag)`
unfoldable pub register_all : Dict Definition → List Definition → Dict Definition
register_all m [] = m
register_all m (d ∷ ds) = register_all (set d.key d m) ds

-- `new Map(entries)`, also `{ ...base, ...entries }`
unfoldable pub add_entries : Dict Bool → Dict Bool → Dict Bool
add_entries m [] = m
add_entries m ((k, b) ∷ es) = add_entries (set k b m) es

-- The constructor: the settings that are given replace the defaults.
unfoldable pub new_service : Option PartialPolicy → Option (Dict Bool) → Service
unfolding register_all add_entries override_policy built_in_feature_flags
new_service policy overrides =
    let given = add_entries [] (or_else overrides []) in
    let no_settings : PartialPolicy = record {
      allow_beta = none;
      allow_experimental = none;
      allow_deprecated = none;
    } in
    record {
      definitions = register_all [] built_in_feature_flags;
      config = record {
        policy = override_policy default_policy (or_else policy no_settings);
        overrides = given;
      };
      overrides = add_entries [] given;
    }

unfoldable pub register : Service → Definition → Outcome Error Service
register s d =
    if has d.key s.definitions
    then err (already_registered d.key)
    else ok (record s { definitions = set d.key d s.definitions })

unfoldable pub unregister : Service → String → Service × Bool
unregister s key = (
  record s { definitions = delete key s.definitions; overrides = delete key s.overrides },
  has key s.definitions,
)

unfoldable pub has_flag : Service → String → Bool
has_flag s key = has key s.definitions

unfoldable pub evaluate_against_policy : Service → Definition → Bool
evaluate_against_policy s d = elim d.stability [
  | stable ↦ true
  | beta ↦ s.config.policy.allow_beta
  | experimental ↦ s.config.policy.allow_experimental
  | deprecated ↦ s.config.policy.allow_deprecated
]

-- The part of `isEnabled` after the definition is found.
unfoldable pub enabled_by : Service → Definition → Option Bool → Bool
unfolding evaluate_against_policy
enabled_by s d (some override) = override
enabled_by s d none = evaluate_against_policy s d

unfoldable pub is_enabled : Service → String → Bool
unfolding enabled_by
is_enabled s key = elim (get key s.definitions) [
  | none ↦ false
  | some d ↦ enabled_by s d (get key s.overrides)
]

unfoldable pub assert_exists : Service → String → Outcome Error (Unit {0})
assert_exists s key = require (has key s.definitions) (not_registered key)

unfoldable pub enable : Service → String → Outcome Error Service
unfolding assert_exists
enable s key = do _ ← assert_exists s key; ok (record s { overrides = set key true s.overrides })

unfoldable pub disable : Service → String → Outcome Error Service
unfolding assert_exists
disable s key = do _ ← assert_exists s key; ok (record s { overrides = set key false s.overrides })

unfoldable pub reset : Service → String → Outcome Error Service
unfolding assert_exists
reset s key = do _ ← assert_exists s key; ok (record s { overrides = delete key s.overrides })

abbrev set_policy_of : Service → Policy → Service
set_policy_of s p = record s { config = record { policy = p; overrides = s.config.overrides } }

unfoldable pub reset_all : Service → Service
reset_all s = record (set_policy_of s default_policy) { overrides = [] }

unfoldable pub get_policy : Service → Policy
get_policy s = s.config.policy

unfoldable pub set_policy : Service → PartialPolicy → Service
unfolding override_policy
set_policy s p = set_policy_of s (override_policy s.config.policy p)

unfoldable pub state_of : Service → Definition → FlagState
unfolding is_enabled
state_of s d = record {
  definition = d;
  enabled = is_enabled s d.key;
  is_overridden = has d.key s.overrides;
}

unfoldable pub get_state : Service → String → Option FlagState
unfolding is_enabled
get_state s key = elim (get key s.definitions) [
  | none ↦ none
  | some d ↦
      some
        (record { definition = d; enabled = is_enabled s key; is_overridden = has key s.overrides })
]

unfoldable pub get_all_states : Service → List FlagState
unfolding state_of
get_all_states s = map (state_of s) (values s.definitions)

unfoldable pub get_summary : Service → FlagsSummary
unfolding get_all_states get_policy
get_summary s =
    let flags = get_all_states s in
    record {
      total_flags = length flags;
      enabled_flags = length (keep (λ f. f.enabled) flags);
      policy = get_policy s;
      override_count = length s.overrides;
      flags = flags;
    }

unfoldable pub get_by_stability : Service → Stability → List FlagState
unfolding get_all_states
get_by_stability s level =
    keep (λ f. same_stability f.definition.stability level) (get_all_states s)

unfoldable pub get_enabled_keys : Service → List String
unfolding get_all_states
get_enabled_keys s = map (λ f. f.definition.key) (keep (λ f. f.enabled) (get_all_states s))

-- The calls that may change the service; one that throws leaves it as it was.
pub data Call : Type 0 where
  registers : Definition → Call
  unregisters enables disables resets : String → Call
  resets_all : Call
  sets_policy : PartialPolicy → Call

abbrev pub after : Service → Outcome Error Service → Service
after s (ok t) = t
after s (err e) = s

unfoldable pub step : Service → Call → Service
step s (registers d) = after s (register s d)
step s (unregisters key) = (unregister s key).0
step s (enables key) = after s (enable s key)
step s (disables key) = after s (disable s key)
step s (resets key) = after s (reset s key)
step s resets_all = reset_all s
step s (sets_policy p) = set_policy s p

unfoldable pub run : Service → List Call → Service
run s [] = s
run s (c ∷ cs) = run (step s c) cs
