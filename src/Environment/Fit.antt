-- ===== src/Environment/Fit.antt =====
-- What `validate` and `switch` of EnvironmentManager (src/network/environmentManager.ts) accept.
use axionvera_sdk.Prelude.{
  map, ℕ, ◌≡◌, ◌≢◌, ◌↔◌, refl, sym, ap, ◌∙◌, ◌⊎◌, inl, inr, String, Bool, true, false, ◌||◌, Option,
  none, some, List, [], ◌∷◌, ◌++◌, any, arith, Bool-cases, Option-cases, ok, err, is_empty, or_else,
}
use axionvera_sdk.Prelude.Dict.{get}
use axionvera_sdk.Batch.Validator.{is_blank}
use axionvera_sdk.Plugin.SemVer.{codes}
use axionvera_sdk.Plugin.Registry.{starts_with}
use axionvera_sdk.Environment.Presets.{Tier, local, testnet, futurenet, mainnet, EnvironmentConfig}
use axionvera_sdk.Environment.Manager.{
  Manager, SwitchResult, unregistered, validation_failed, has_prefix, is_insecure, issues_of,
  same_tier, valid_tiers, validate, switch, switch_to, list_ids, notify_listeners,
}

-- The URL is of a secure protocol, or of the plain one, which mainnet takes only where it is allowed; and there is
-- a passphrase.
pub record IsFit (c : EnvironmentConfig) : Type 0 where
  pub reachable :
      (has_prefix "https://" c.rpc_url ≡ true)
      ⊎ ((has_prefix "http://" c.rpc_url ≡ true) × (c.tier ≡ mainnet → c.allow_http ≡ some true))
  pub signed : is_blank c.network_passphrase ≡ false

starts_with-apart :
    (cs : List ℕ)
    → starts_with (codes "https://") cs ≡ true
    → starts_with (codes "http://") cs ≡ false
starts_with-apart [] h = refl
starts_with-apart (a ∷ []) h = ground arith
starts_with-apart (a ∷ b ∷ []) h = ground arith
starts_with-apart (a ∷ b ∷ c ∷ []) h = ground arith
starts_with-apart (a ∷ b ∷ c ∷ d ∷ []) h = ground arith
starts_with-apart (a ∷ b ∷ c ∷ d ∷ e ∷ cs) h = ground arith

is_blank-http : (s : String) → has_prefix "http://" s ≡ true → is_blank s ≡ false
unfolding is_blank
is_blank-http String.[] h = cc
is_blank-http (String.◌∷◌ c s) h = ground arith

is_blank-https : (s : String) → has_prefix "https://" s ≡ true → is_blank s ≡ false
unfolding is_blank
is_blank-https String.[] h = cc
is_blank-https (String.◌∷◌ c s) h = ground arith

-- A tier is one of the four.
is_valid_tier : (t : Tier) → any (same_tier t) valid_tiers ≡ true
is_valid_tier local = refl
is_valid_tier testnet = refl
is_valid_tier futurenet = refl
is_valid_tier mainnet = refl

tier_cases : (t : Tier) → (t ≡ mainnet) ⊎ ((same_tier t mainnet ≡ false) × (t ≢ mainnet))
tier_cases local = inr (refl, cc)
tier_cases testnet = inr (refl, cc)
tier_cases futurenet = inr (refl, cc)
tier_cases mainnet = inl refl

allowed_iff : (o : Option Bool) → (or_else o false ≡ true) ↔ (o ≡ some true)
allowed_iff none = ground arith
allowed_iff (some b) = ground arith

is_insecure_iff :
    (c : EnvironmentConfig)
    → (is_insecure c ≡ false)
      ↔ ((has_prefix "http://" c.rpc_url ≡ false) ⊎ (c.tier ≡ mainnet → c.allow_http ≡ some true))
is_insecure_iff c = elim (tier_cases c.tier) [
  | inl e ↦
      let at_mainnet : same_tier c.tier mainnet ≡ true = ap (λ t. same_tier t mainnet) e in
      let allowed = allowed_iff c.allow_http in
      (
        (λ h. elim (Bool-cases (has_prefix "http://" c.rpc_url)) [
          | inl plain ↦ inr (λ k. allowed.0 (ground arith))
          | inr other ↦ inl other
        ]),
        (λ h. elim h [
          | inl other ↦ ground arith
          | inr f ↦ let taken = allowed.1 (f e) in ground arith
        ]),
      )
  | inr (e, ne) ↦ ((λ h. inr (λ k. absurd (ne k))), (λ h. ground arith))
]

issues_of_iff :
    (c : EnvironmentConfig)
    → (is_empty (issues_of c) ≡ true) ↔ (
        (is_blank c.rpc_url ≡ false)
        × ((has_prefix "http://" c.rpc_url || has_prefix "https://" c.rpc_url) ≡ true)
        × (is_blank c.network_passphrase ≡ false)
        × (is_insecure c ≡ false))
unfolding issues_of
issues_of_iff c = ground (arith, is_valid_tier c.tier)

issues_of-IsFit : (c : EnvironmentConfig) → is_empty (issues_of c) ≡ true → IsFit c
issues_of-IsFit c h =
    let (full, protocol, signed, secure) = (issues_of_iff c).0 h in
    record {
      reachable = elim (Bool-cases (has_prefix "https://" c.rpc_url)) [
        | inl e ↦ inl e
        | inr e ↦
            let plain : has_prefix "http://" c.rpc_url ≡ true = ground arith in
            inr (
              plain,
              elim ((is_insecure_iff c).0 secure) [ inl other ↦ absurd (ground arith) | inr f ↦ f ],
            )
      ];
      signed = signed;
    }

IsFit-issues_of : (c : EnvironmentConfig) → IsFit c → is_empty (issues_of c) ≡ true
IsFit-issues_of c h = elim h.reachable [
  | inl e ↦ (issues_of_iff c).1 (
    is_blank-https c.rpc_url e,
    ground arith,
    h.signed,
    (is_insecure_iff c).1 (inl (starts_with-apart (codes c.rpc_url) e)),
  )
  | inr (e, f) ↦
      (issues_of_iff c).1
        (is_blank-http c.rpc_url e, ground arith, h.signed, (is_insecure_iff c).1 (inr f))
]

validate_found :
    (id : String) (m : Manager) (c : EnvironmentConfig)
    → get id m.registry ≡ some c
    → validate id m ≡ record { valid = is_empty (issues_of c); issues = issues_of c }
unfolding validate
validate_found id m c there = rw (validate, there) refl

-- A registered environment is valid exactly if it is fit.
pub validate_iff :
    (id : String) (m : Manager) (c : EnvironmentConfig)
    → get id m.registry ≡ some c
    → ((validate id m).valid ≡ true) ↔ IsFit c
validate_iff id m c there =
    let found = ap (λ r. r.valid) (validate_found id m c there) in
    ((λ h. issues_of-IsFit c (sym found ∙ h)), (λ h. found ∙ IsFit-issues_of c h))

switch_found :
    (id : String) (m : Manager) (c : EnvironmentConfig)
    → get id m.registry ≡ some c
    → switch id m ≡ switch_to id c m
unfolding switch
switch_found id m c there = rw (switch, there) refl

switch_missing :
    (id : String) (m : Manager)
    → get id m.registry ≡ none
    → switch id m ≡ (m, err (unregistered id (list_ids m)))
unfolding switch
switch_missing id m there = rw (switch, there) refl

-- What `switch` returns and tells for an environment.
abbrev pub result_of : String → EnvironmentConfig → Manager → SwitchResult
result_of id c m = record { previous = m.active_id; current = id; config = c }

abbrev pub switched : String → EnvironmentConfig → Manager → Manager
switched id c m = record m {
  active_id = some id;
  told = m.told ++ map (λ l. record { listener = l; result = result_of id c m }) m.listeners;
}

switch_to_valid :
    (id : String) (m : Manager) (c : EnvironmentConfig)
    → (validate id m).valid ≡ true
    → switch_to id c m ≡ (switched id c m, ok (result_of id c m))
unfolding switch_to notify_listeners
switch_to_valid id m c h = rw h refl

switch_to_invalid :
    (id : String) (m : Manager) (c : EnvironmentConfig)
    → (validate id m).valid ≡ false
    → switch_to id c m ≡ (m, err (validation_failed id (validate id m).issues))
unfolding switch_to
switch_to_invalid id m c h = rw h refl

-- `switch` throws and changes nothing where the id is not registered or its environment is not fit. Otherwise it
-- makes the id the active one, returns it with its environment and the id that was active before, and tells every
-- listener, once and in order, the same; the registry and the listeners stay as they are.
pub switch_cases :
    (id : String) (m : Manager)
    → ((get id m.registry ≡ none) × (switch id m ≡ (m, err (unregistered id (list_ids m)))))
      ⊎ ((c : EnvironmentConfig) × (get id m.registry ≡ some c)
          × ((IsFit c × (switch id m ≡ (switched id c m, ok (result_of id c m))))
              ⊎ ((¬ IsFit c)
                  × (switch id m ≡ (m, err (validation_failed id (validate id m).issues))))))
switch_cases id m = elim (Option-cases (get id m.registry)) [
  | inl missing ↦ inl (missing, switch_missing id m missing)
  | inr (c, there) ↦
      let fit = validate_iff id m c there in
      let found = switch_found id m c there in
      inr (
        c,
        there,
        elim (Bool-cases (validate id m).valid) [
          | inl e ↦ inl (fit.0 e, found ∙ switch_to_valid id m c e)
          | inr e ↦
              inr ((λ f. absurd (ground (arith, fit.1 f))), found ∙ switch_to_invalid id m c e)
        ],
      )
]
