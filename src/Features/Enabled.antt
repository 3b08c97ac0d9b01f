-- ===== src/Features/Enabled.antt =====
-- What decides that a flag is on: FeatureFlagsService.isEnabled (src/features/flags.ts) against the
-- pure evaluation of src/features/evaluation.ts, and what each call changes.
use axionvera_sdk.Prelude.{
  String, Bool, true, false, none, some, ◌≡◌, refl, inl, inr, if◌then◌else◌, ok, arith,
  Option-cases, str_eq, eq_iff, eq_refl,
}
use axionvera_sdk.Prelude.Dict.{get, set, delete, get-set, get-delete}
use axionvera_sdk.Features.Flag.{
  Definition, Policy, stable, beta, experimental, deprecated, Stability,
}
use axionvera_sdk.Features.Evaluation.{allowed_by, evaluate_feature}
use axionvera_sdk.Features.Service.{
  Service, register, unregister, enable, disable, reset, is_enabled,
}

-- The service and the pure function agree on every flag, and a flag that is not registered is off.
pub is_enabled-evaluate_feature :
    (s : Service) (key : String)
    → is_enabled s key ≡ elim (get key s.definitions) [
      | none ↦ false
      | some d ↦ evaluate_feature d s.config.policy (get key s.overrides)
    ]
unfolding is_enabled evaluate_feature
is_enabled-evaluate_feature s key = ground arith

module _ (s t : Service) (key j : String) where
  -- `enable` turns the flag on whatever the policy, and no other flag changes.
  pub is_enabled-enable :
      enable s key ≡ ok t → is_enabled t j ≡ (if str_eq key j then true else is_enabled s j)
  unfolding enable is_enabled
  is_enabled-enable h = ground (arith, eq_iff key j, get-set key j true s.overrides)

  pub is_enabled-disable :
      disable s key ≡ ok t → is_enabled t j ≡ (if str_eq key j then false else is_enabled s j)
  unfolding disable is_enabled
  is_enabled-disable h = ground (arith, eq_iff key j, get-set key j false s.overrides)

  -- `reset` leaves the flag to the policy.
  pub is_enabled-reset :
      (d : Definition)
      → get key s.definitions ≡ some d
      → reset s key ≡ ok t
      → is_enabled t j
        ≡ (if str_eq key j then allowed_by s.config.policy d.stability else is_enabled s j)
  unfolding reset is_enabled allowed_by
  is_enabled-reset d g h = ground (arith, eq_iff key j, get-delete key j s.overrides)

abbrev with_override : Service → String → Bool → Service
with_override s key b = record s { overrides = set key b s.overrides }

-- For a registered flag, `enable`, `disable` and `reset` succeed: the flag is then on, off, and as the
-- policy says for its stability; every other flag is as before.
pub toggle_effects :
    (s : Service) (key : String) (d : Definition) (j : String)
    → get key s.definitions ≡ some d
    → ((t : Service) × (enable s key ≡ ok t)
        × (is_enabled t j ≡ (if str_eq key j then true else is_enabled s j)))
      × ((t : Service) × (disable s key ≡ ok t)
          × (is_enabled t j ≡ (if str_eq key j then false else is_enabled s j)))
      × ((t : Service) × (reset s key ≡ ok t)
          × (is_enabled t j
              ≡ (if str_eq key j then allowed_by s.config.policy d.stability else is_enabled s j)))
unfolding enable disable reset
toggle_effects s key d j g = (
  (with_override s key true, ground arith, is_enabled-enable s _ key j (ground arith)),
  (with_override s key false, ground arith, is_enabled-disable s _ key j (ground arith)),
  (
    record s { overrides = delete key s.overrides },
    ground arith,
    is_enabled-reset s _ key j d g (ground arith),
  ),
)

-- `p` allows no more than `q`.
pub record AtMost (p q : Policy) : Type 0 where
  pub beta : p.allow_beta ≡ true → q.allow_beta ≡ true
  pub experimental : p.allow_experimental ≡ true → q.allow_experimental ≡ true
  pub deprecated : p.allow_deprecated ≡ true → q.allow_deprecated ≡ true

allowed_by-AtMost :
    (p q : Policy) (level : Stability)
    → AtMost p q
    → allowed_by p level ≡ true
    → allowed_by q level ≡ true
unfolding allowed_by
allowed_by-AtMost p q stable h e = refl
allowed_by-AtMost p q beta h e = h.beta e
allowed_by-AtMost p q experimental h e = h.experimental e
allowed_by-AtMost p q deprecated h e = h.deprecated e

-- With a policy that allows more, every flag that was on is still on; so no flag is ever on without its
-- stability level allowed or an override.
pub is_enabled-AtMost :
    (s : Service) (q : Policy) (key : String)
    → AtMost s.config.policy q
    → is_enabled s key ≡ true
    → is_enabled (record s { config = record { policy = q; overrides = s.config.overrides } }) key
      ≡ true
unfolding is_enabled
is_enabled-AtMost s q key h e = elim (Option-cases (get key s.definitions)) [
  | inl missing ↦ ground arith
  | inr (d, found) ↦ ground (arith, allowed_by-AtMost s.config.policy q d.stability h)
]

-- The default value of a registered flag never decides whether a flag is on: with any other default
-- the service answers the same for every key.
pub is_enabled-default_value :
    (s : Service) (key j : String) (d : Definition) (b : Bool)
    → get key s.definitions ≡ some d
    → is_enabled
        (record s { definitions = set key (record d { default_value = b }) s.definitions })
        j
      ≡ is_enabled s j
unfolding is_enabled
is_enabled-default_value s key j d b g =
    ground (arith, eq_iff key j, get-set key j (record d { default_value = b }) s.definitions)

-- Registering under a key that is taken fails. After `unregister` the key is off and free again, and a
-- definition registered under it starts with no override left over; other flags do not change.
pub register-unregister :
    (s : Service) (d : Definition) (j : String)
    → (is_enabled (unregister s d.key).0 d.key ≡ false)
      × ((t : Service) × (register (unregister s d.key).0 d ≡ ok t)
          × (is_enabled t j ≡ (
              if str_eq d.key j then allowed_by s.config.policy d.stability else is_enabled s j)))
unfolding is_enabled unregister register allowed_by
register-unregister s d j = (
  ground (arith, eq_refl d.key, get-delete d.key d.key s.definitions),
  (
    record (unregister s d.key).0 { definitions = set d.key d (delete d.key s.definitions) },
    ground (arith, eq_refl d.key, get-delete d.key d.key s.definitions),
    ground (
      arith,
      eq_iff d.key j,
      get-set d.key j d (delete d.key s.definitions),
      get-delete d.key j s.definitions,
      get-delete d.key j s.overrides,
    ),
  ),
)
