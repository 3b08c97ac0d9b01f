-- ===== src/Features/Story.antt =====
-- One flag of FeatureFlagsService (src/features/flags.ts) over any calls: what isEnabled answers for it follows from
-- the calls that name it, and from those that change the policy.
use axionvera_sdk.Prelude.{
  String, Bool, true, false, Option, none, some, List, [], ◌∷◌, ◌≡◌, refl, ap, ◌∙◌, inl, inr,
  if◌then◌else◌, or_else, Bool-cases, Option-cases, str_eq, eq_iff, subst, ok, ◌>>=◌,
}
use axionvera_sdk.Prelude.Dict.{Dict, get, get-set, get-delete}
use axionvera_sdk.Features.Flag.{
  Stability, stable, beta, experimental, deprecated, Definition, Policy,
}
use axionvera_sdk.Features.Policy.{override_policy}
use axionvera_sdk.Features.Service.{
  Service, register, unregister, assert_exists, enable, disable, reset, reset_all, set_policy,
  is_enabled, Call, registers, unregisters, enables, disables, resets, resets_all, sets_policy,
  after, step, run,
}

-- What is known of one flag: its stability, if it is registered, the setting that was made for it, and the policy.
pub record Status : Type 0 where
  pub stability : Option Stability
  pub setting : Option Bool
  pub policy : Policy

abbrev pub status_in : String → Service → Status
status_in key s = record {
  stability = elim (get key s.definitions) [ none ↦ none | some d ↦ some d.stability ];
  setting = get key s.overrides;
  policy = s.config.policy;
}

abbrev unknown : Status → Status
unknown t = record { stability = none; setting = none; policy = t.policy }

-- A flag that is registered takes the setting, or loses the one it has.
abbrev settled : Option Bool → Status → Status
settled b t = elim t.stability [ none ↦ t | some _ ↦ record t { setting = b } ]

-- A flag is registered once, until it is unregistered.
abbrev entered : Stability → Status → Status
entered level t = elim t.stability [ none ↦ record t { stability = some level } | some _ ↦ t ]

-- What a call means for the flag of a key.
abbrev pub told : String → Call → Status → Status
told key (registers d) t = if str_eq d.key key then entered d.stability t else t
told key (unregisters k) t = if str_eq k key then unknown t else t
told key (enables k) t = if str_eq k key then settled (some true) t else t
told key (disables k) t = if str_eq k key then settled (some false) t else t
told key (resets k) t = if str_eq k key then settled none t else t
told key resets_all t = record {
  stability = t.stability;
  setting = none;
  policy = record { allow_beta = false; allow_experimental = false; allow_deprecated = false };
}
told key (sets_policy p) t = record t {
  policy = record {
    allow_beta = or_else p.allow_beta t.policy.allow_beta;
    allow_experimental = or_else p.allow_experimental t.policy.allow_experimental;
    allow_deprecated = or_else p.allow_deprecated t.policy.allow_deprecated;
  };
}

abbrev pub told_all : String → List Call → Status → Status
told_all key [] t = t
told_all key (c ∷ cs) t = told_all key cs (told key c t)

-- The setting decides, and without one the policy does by the stability; a flag that is not registered is off.
abbrev pub is_on : Status → Bool
is_on t = elim t.stability [
  | none ↦ false
  | some level ↦ elim t.setting [
    | some b ↦ b
    | none ↦ elim level [
      | stable ↦ true
      | beta ↦ t.policy.allow_beta
      | experimental ↦ t.policy.allow_experimental
      | deprecated ↦ t.policy.allow_deprecated
    ]
  ]
]

is_enabled-is_on : (s : Service) (key : String) → is_enabled s key ≡ is_on (status_in key s)
unfolding is_enabled
is_enabled-is_on s key = elim (Option-cases (get key s.definitions)) [
  | inl e ↦ rw (e, is_enabled) refl
  | inr (d, e) ↦ elim (Option-cases (get key s.overrides)) [
    | inl n ↦ rw (e, n, is_enabled) refl
    | inr (b, n) ↦ rw (e, n, is_enabled) refl
  ]
]

-- A call that sets or drops the setting of a flag, if the flag is registered.
setting-settled :
    (s : Service) (key k : String) (o : Dict Bool) (b : Option Bool)
    → get key o ≡ (if str_eq k key then b else get key s.overrides)
    → status_in key (after s (do _ ← assert_exists s k; ok (record s { overrides = o })))
      ≡ (if str_eq k key then settled b (status_in key s) else status_in key s)
unfolding assert_exists
setting-settled s key k o b h = elim (Bool-cases (str_eq k key)) [
  | inl e ↦
      let same : k ≡ key = (eq_iff k key).0 e in
      elim (Option-cases (get k s.definitions)) [
        | inl n ↦
            let here : get key s.definitions ≡ none =
              subst (λ x. get x s.definitions ≡ none) same n in
            rw (n, e, here) refl
        | inr (d, n) ↦
            let here : get key s.definitions ≡ some d =
              subst (λ x. get x s.definitions ≡ some d) same n in
            rw (n, h, e, here) refl
      ]
  | inr e ↦ elim (Option-cases (get k s.definitions)) [
    | inl n ↦ rw (n, e) refl
    | inr (d, n) ↦ rw (n, h, e) refl
  ]
]

register-entered :
    (s : Service) (key : String) (d : Definition)
    → status_in key (after s (register s d))
      ≡ (if str_eq d.key key then entered d.stability (status_in key s) else status_in key s)
unfolding register
register-entered s key d = elim (Bool-cases (str_eq d.key key)) [
  | inl e ↦
      let same : d.key ≡ key = (eq_iff d.key key).0 e in
      elim (Option-cases (get d.key s.definitions)) [
        | inl n ↦
            let here : get key s.definitions ≡ none =
              subst (λ x. get x s.definitions ≡ none) same n in
            rw (n, get-set, e, here) refl
        | inr (q, n) ↦
            let here : get key s.definitions ≡ some q =
              subst (λ x. get x s.definitions ≡ some q) same n in
            rw (n, e, here) refl
      ]
  | inr e ↦ elim (Option-cases (get d.key s.definitions)) [
    | inl n ↦ rw (n, get-set, e) refl
    | inr (q, n) ↦ rw (n, e) refl
  ]
]

unregister-unknown :
    (s : Service) (key k : String)
    → status_in key (unregister s k).0
      ≡ (if str_eq k key then unknown (status_in key s) else status_in key s)
unfolding unregister
unregister-unknown s key k =
    rw (get-delete k key s.definitions, get-delete k key s.overrides)
      (elim (Bool-cases (str_eq k key)) [ inl e ↦ rw e refl | inr e ↦ rw e refl ])

step-told :
    (s : Service) (key : String) (c : Call)
    → status_in key (step s c) ≡ told key c (status_in key s)
unfolding step enable disable reset reset_all set_policy override_policy get
step-told s key (registers d) = register-entered s key d
step-told s key (unregisters k) = unregister-unknown s key k
step-told s key (enables k) = setting-settled s key k _ (some true) (get-set k key true s.overrides)
step-told s key (disables k) =
    setting-settled s key k _ (some false) (get-set k key false s.overrides)
step-told s key (resets k) = setting-settled s key k _ none (get-delete k key s.overrides)
step-told s key resets_all = refl
step-told s key (sets_policy p) = refl

-- Over any calls, isEnabled answers for a flag as the calls on it say in turn. The flag is registered by the first
-- `register` of its key and forgotten with its setting by `unregister`; while it is registered, `enable` and `disable`
-- set it, and `reset` drops the setting; `resetAll` drops it and allows stable flags only; `setPolicy` replaces the
-- parts of the policy that are given. A flag that is not registered is off, the setting comes next, and last the policy
-- for its stability.
pub is_enabled-told :
    (s : Service) (cs : List Call) (key : String)
    → is_enabled (run s cs) key ≡ is_on (told_all key cs (status_in key s))
unfolding run
is_enabled-told s [] key = is_enabled-is_on s key
is_enabled-told s (c ∷ cs) key =
    is_enabled-told (step s c) cs key ∙ ap (λ t. is_on (told_all key cs t)) (step-told s key c)
