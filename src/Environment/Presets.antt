-- ===== src/Environment/Presets.antt =====
-- src/network/environmentPresets.ts, with src/types/environment.ts and the passphrases of src/utils/networkConfig.ts.
-- The passphrases that stellar-sdk has in `Networks` are the parameter `networks`.
use axionvera_sdk.Prelude.{
  String, Bool, true, false, Option, none, some, List, [], ◌∷◌, map, or_else,
}
use axionvera_sdk.Prelude.Dict.{Dict}

pub data Tier : Type 0 where
  local testnet futurenet mainnet : Tier

-- AxionveraNetwork has the same four names.
abbrev pub Network : Type 0
Network = Tier

pub record EnvironmentConfig : Type 0 where
  pub id : String
  pub name : String
  pub tier : Tier
  pub network : Network
  pub rpc_url : String
  pub network_passphrase : String
  pub horizon_url : Option String
  pub faucet_url : Option String
  pub allow_http : Option Bool
  pub description : Option String
  pub metadata : Option (Dict String)

pub record EnvironmentOptions : Type 0 where
  pub id : Option String
  pub name : Option String
  pub tier : Tier
  pub network : Option Network
  pub rpc_url : Option String
  pub network_passphrase : Option String
  pub horizon_url : Option String
  pub faucet_url : Option String
  pub allow_http : Option Bool
  pub description : Option String
  pub metadata : Option (Dict String)

-- The overrides of `buildEnvironmentConfig`.
pub record Overrides : Type 0 where
  pub id : Option String
  pub name : Option String
  pub rpc_url : Option String
  pub network_passphrase : Option String
  pub horizon_url : Option String
  pub faucet_url : Option String
  pub allow_http : Option Bool
  pub description : Option String
  pub metadata : Option (Dict String)

pub record Networks : Type 0 where
  pub testnet : String
  pub public : String
  pub futurenet : String

abbrev pub tier_to_network : Tier → Network
tier_to_network t = t

-- The name of a tier as a text, and with its first letter as a capital.
abbrev pub tier_text : Tier → String
tier_text local = "local"
tier_text testnet = "testnet"
tier_text futurenet = "futurenet"
tier_text mainnet = "mainnet"

abbrev pub tier_name : Tier → String
tier_name local = "Local"
tier_name testnet = "Testnet"
tier_name futurenet = "Futurenet"
tier_name mainnet = "Mainnet"

abbrev pub default_rpc_urls : Tier → String
default_rpc_urls local = "http://localhost:8000/soroban/rpc"
default_rpc_urls testnet = "https://soroban-testnet.stellar.org"
default_rpc_urls futurenet = "https://rpc-futurenet.stellar.org"
default_rpc_urls mainnet = "https://soroban-mainnet.stellar.org"

abbrev pub default_horizon_urls : Tier → String
default_horizon_urls local = "http://localhost:8000"
default_horizon_urls testnet = "https://horizon-testnet.stellar.org"
default_horizon_urls futurenet = "https://horizon-futurenet.stellar.org"
default_horizon_urls mainnet = "https://horizon.stellar.org"

abbrev pub default_faucet_urls : Tier → Option String
default_faucet_urls local = some "http://localhost:8000/friendbot"
default_faucet_urls testnet = some "https://friendbot.stellar.org"
default_faucet_urls futurenet = some "https://friendbot-futurenet.stellar.org"
default_faucet_urls mainnet = none

abbrev pub tier_descriptions : Tier → String
tier_descriptions local = "Local development network (standalone Stellar node)"
tier_descriptions testnet = "Stellar Testnet — public shared test network"
tier_descriptions futurenet = "Stellar Futurenet — preview of upcoming protocol changes"
tier_descriptions mainnet = "Stellar Mainnet — production network"

abbrev pub is_local : Tier → Bool
is_local local = true
is_local testnet = false
is_local futurenet = false
is_local mainnet = false

abbrev pub local_network_passphrase : String
local_network_passphrase = "Standalone Network ; February 2017"

abbrev pub get_network_passphrase : Networks → Network → String
get_network_passphrase networks local = local_network_passphrase
get_network_passphrase networks testnet = networks.testnet
get_network_passphrase networks futurenet = networks.futurenet
get_network_passphrase networks mainnet = networks.public

-- `a ?? b`, of two optional values.
abbrev pub or_other {ℓ} : {A : Type ℓ} → Option A → Option A → Option A
or_other none o = o
or_other (some a) o = some a

abbrev pub no_overrides : Overrides
no_overrides = record {
  id = none;
  name = none;
  rpc_url = none;
  network_passphrase = none;
  horizon_url = none;
  faucet_url = none;
  allow_http = none;
  description = none;
  metadata = none;
}

module _ (networks : Networks) where
  abbrev pub build_environment_config : Tier → Overrides → EnvironmentConfig
  build_environment_config tier o = record {
    id = or_else o.id (tier_text tier);
    name = or_else o.name (tier_name tier);
    tier = tier;
    network = tier_to_network tier;
    rpc_url = or_else o.rpc_url (default_rpc_urls tier);
    network_passphrase =
        or_else o.network_passphrase (get_network_passphrase networks (tier_to_network tier));
    horizon_url = some (or_else o.horizon_url (default_horizon_urls tier));
    faucet_url = or_other o.faucet_url (default_faucet_urls tier);
    allow_http = some (or_else o.allow_http (is_local tier));
    description = some (or_else o.description (tier_descriptions tier));
    metadata = o.metadata;
  }

  abbrev pub get_preset_environment : Tier → EnvironmentConfig
  get_preset_environment tier = build_environment_config tier no_overrides

  abbrev pub get_preset_environments : List EnvironmentConfig
  get_preset_environments = map get_preset_environment (local ∷ testnet ∷ futurenet ∷ mainnet ∷ [])
