-- ===== src/Environment/Manager.antt =====
-- src/network/environmentManager.ts: EnvironmentManager. A listener is a number, and a call of it is told in the
-- state; it does not call the manager.
use axionvera_sdk.Prelude.{
  ℕ, String, Bool, false, not, ◌&&◌, Option, none, some, List, [], ◌∷◌, ◌++◌, map, any, keep,
  length, Outcome, ok, err, if◌then◌else◌, is_empty, or_else, str_eq, ◌==◌,
}
use axionvera_sdk.Prelude.Dict.{Dict, get, set, delete, has, values}
use axionvera_sdk.Batch.Validator.{is_blank}
use axionvera_sdk.Plugin.SemVer.{codes}
use axionvera_sdk.Plugin.Registry.{starts_with}
use axionvera_sdk.Environment.Presets.{
  Tier, local, testnet, futurenet, mainnet, tier_text, EnvironmentConfig, EnvironmentOptions,
  Overrides, Networks, build_environment_config, get_preset_environments,
}

pub record SwitchResult : Type 0 where
  pub previous : Option String
  pub current : String
  pub config : EnvironmentConfig

pub data Message : Type 0 where
  not_registered rpc_url_required no_protocol passphrase_required invalid_tier must_use_https :
      Message

pub record Issue : Type 0 where
  pub field : String
  pub message : Message

pub record ValidationResult : Type 0 where
  pub valid : Bool
  pub issues : List Issue

pub record Told : Type 0 where
  pub listener : ℕ
  pub result : SwitchResult

pub record Manager : Type 0 where
  pub registry : Dict EnvironmentConfig
  pub active_id : Option String
  pub listeners : List ℕ
  pub told : List Told

pub data Error : Type 0 where
  still_active : String → Error
  unregistered : String → List String → Error
  validation_failed : String → List Issue → Error

abbrev pub set_each : List EnvironmentConfig → Dict EnvironmentConfig → Dict EnvironmentConfig
set_each [] registry = registry
set_each (p ∷ ps) registry = set_each ps (set p.id p registry)

abbrev pub overrides_of : EnvironmentOptions → Overrides
overrides_of o = record {
  id = some (or_else o.id (tier_text o.tier));
  name = o.name;
  rpc_url = o.rpc_url;
  network_passphrase = o.network_passphrase;
  horizon_url = o.horizon_url;
  faucet_url = o.faucet_url;
  allow_http = o.allow_http;
  description = o.description;
  metadata = o.metadata;
}

module _ (networks : Networks) where
  unfoldable pub new_manager : Bool → Manager
  new_manager load_presets = record {
    registry = if load_presets then set_each (get_preset_environments networks) [] else [];
    active_id = none;
    listeners = [];
    told = [];
  }

  unfoldable pub register : EnvironmentOptions → Manager → Manager × EnvironmentConfig
  register o m =
      let config = build_environment_config networks o.tier (overrides_of o) in
      (record m { registry = set (or_else o.id (tier_text o.tier)) config m.registry }, config)

-- `id === this.activeId`
abbrev pub is_active : String → Option String → Bool
is_active id none = false
is_active id (some a) = str_eq id a

unfoldable pub unregister : String → Manager → Manager × Outcome Error Bool
unregister id m =
    if is_active id m.active_id
    then (m, err (still_active id))
    else (record m { registry = delete id m.registry }, ok (has id m.registry))

abbrev pub list_ids : Manager → List String
list_ids m = map (λ e. e.0) m.registry

abbrev pub list : Manager → List EnvironmentConfig
list m = values m.registry

abbrev pub get_environment : String → Manager → Option EnvironmentConfig
get_environment id m = get id m.registry

abbrev pub has_environment : String → Manager → Bool
has_environment id m = has id m.registry

abbrev pub size : Manager → ℕ
size m = length m.registry

abbrev pub get_active_id : Manager → Option String
get_active_id m = m.active_id

-- An empty id counts as none.
abbrev pub get_active : Manager → Option EnvironmentConfig
get_active m = elim m.active_id [
  | none ↦ none
  | some a ↦ if str_eq a "" then none else get a m.registry
]

abbrev pub same_tier : Tier → Tier → Bool
same_tier t u = str_eq (tier_text t) (tier_text u)

abbrev pub list_by_tier : Tier → Manager → List EnvironmentConfig
list_by_tier t m = keep (λ e. same_tier e.tier t) (list m)

abbrev pub report : Bool → String → Message → List Issue
report wrong field message = if wrong then record { field = field; message = message } ∷ [] else []

abbrev pub has_prefix : String → String → Bool
has_prefix prefix text = starts_with (codes prefix) (codes text)

abbrev pub valid_tiers : List Tier
valid_tiers = local ∷ testnet ∷ futurenet ∷ mainnet ∷ []

-- The empty text is blank too.
abbrev pub rpc_url_issues : String → List Issue
rpc_url_issues url =
    if is_blank url
    then record { field = "rpcUrl"; message = rpc_url_required } ∷ []
    else report (not (has_prefix "http://" url) && not (has_prefix "https://" url)) "rpcUrl"
        no_protocol

abbrev pub is_insecure : EnvironmentConfig → Bool
is_insecure c =
    same_tier c.tier mainnet && (has_prefix "http://" c.rpc_url && not (or_else c.allow_http false))

unfoldable pub issues_of : EnvironmentConfig → List Issue
issues_of c =
    rpc_url_issues c.rpc_url
    ++ (report (is_blank c.network_passphrase) "networkPassphrase" passphrase_required
        ++ (report (not (any (same_tier c.tier) valid_tiers)) "tier" invalid_tier
            ++ report (is_insecure c) "rpcUrl" must_use_https))

unfoldable pub validate : String → Manager → ValidationResult
validate id m = elim (get id m.registry) [
  | none ↦ record { valid = false; issues = record { field = "id"; message = not_registered } ∷ [] }
  | some c ↦ record { valid = is_empty (issues_of c); issues = issues_of c }
]

abbrev pub validate_each : List String → Manager → Dict ValidationResult → Dict ValidationResult
validate_each [] m results = results
validate_each (id ∷ ids) m results = validate_each ids m (set id (validate id m) results)

abbrev pub validate_all : Manager → Dict ValidationResult
validate_all m = validate_each (list_ids m) m []

unfoldable pub notify_listeners : SwitchResult → List ℕ → List Told
notify_listeners r ls = map (λ l. record { listener = l; result = r }) ls

-- `switch`, once the environment is found.
unfoldable pub switch_to :
    String → EnvironmentConfig → Manager → Manager × Outcome Error SwitchResult
switch_to id c m =
    let result : SwitchResult = record { previous = m.active_id; current = id; config = c } in
    if (validate id m).valid
    then (
      record m { active_id = some id; told = m.told ++ notify_listeners result m.listeners },
      ok result,
    )
    else (m, err (validation_failed id (validate id m).issues))

unfoldable pub switch : String → Manager → Manager × Outcome Error SwitchResult
switch id m = elim (get id m.registry) [
  | none ↦ (m, err (unregistered id (list_ids m)))
  | some c ↦ switch_to id c m
]

-- A `Set` keeps a listener once.
unfoldable pub on_change : ℕ → Manager → Manager
on_change l m =
    if any (λ k. k == l) m.listeners then m else record m { listeners = m.listeners ++ l ∷ [] }

unfoldable pub remove_listener : ℕ → Manager → Manager
remove_listener l m = record m { listeners = keep (λ k. not (k == l)) m.listeners }

unfoldable pub clear_listeners : Manager → Manager
clear_listeners m = record m { listeners = [] }
