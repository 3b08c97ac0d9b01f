-- ===== src/Environment/Tests.antt =====
-- The presets and a custom environment (src/network/environmentManager.ts), with passphrases as stellar-sdk has them.
use axionvera_sdk.Prelude.{
  ℕ, Option, ◌≡◌, refl, ◌⊎◌, String, true, none, some, List, [], ◌∷◌, map, ok, err,
}
use axionvera_sdk.Prelude.Dict.{get, set}
use axionvera_sdk.Batch.Validator.{is_blank}
use axionvera_sdk.Environment.Presets.{
  Tier, local, mainnet, Networks, EnvironmentConfig, EnvironmentOptions,
}
use axionvera_sdk.Environment.Manager.{
  Manager, Told, still_active, unregistered, validation_failed, must_use_https, new_manager,
  register, unregister, switch, switch_to, validate, issues_of, on_change, notify_listeners,
  list_ids,
}
use axionvera_sdk.Environment.Fit.{IsFit, result_of, switched, switch_cases}
use axionvera_sdk.Environment.Histories.{
  Call, registers, switches, listens, made, run, IsSound, run-IsSound,
}

-- What the tests compute with.
unfoldable environments : Unit {0}
unfolding run made new_manager register unregister switch switch_to validate issues_of is_blank
    on_change get set notify_listeners
environments = tt

abbrev networks : Networks
networks = record {
  testnet = "Test SDF Network ; September 2015";
  public = "Public Global Stellar Network ; September 2015";
  futurenet = "Test SDF Future Network ; October 2022";
}

abbrev at_tier : Tier → String → String → EnvironmentOptions
at_tier tier id url = record {
  id = some id;
  name = none;
  tier = tier;
  network = none;
  rpc_url = some url;
  network_passphrase = none;
  horizon_url = none;
  faucet_url = none;
  allow_http = none;
  description = none;
  metadata = none;
}

-- A mainnet environment without encryption, and one on the machine.
abbrev calls : List Call
calls =
    listens 4
    ∷ registers (at_tier mainnet "plain" "http://rpc.example")
    ∷ registers (at_tier local "mine" "http://localhost:1")
    ∷ switches "plain"
    ∷ switches "mine"
    ∷ []

abbrev manager : Manager
manager = run networks calls (new_manager networks true)

ids : list_ids manager ≡ "local" ∷ "testnet" ∷ "futurenet" ∷ "mainnet" ∷ "plain" ∷ "mine" ∷ []
unfolding environments
ids = refl

plain_fails :
    (switch "plain" manager).1
    ≡ err (validation_failed "plain" (record { field = "rpcUrl"; message = must_use_https } ∷ []))
unfolding environments
plain_fails = refl

abbrev shown : Told → ℕ × (Option String × String)
shown t = (t.listener, (t.result.previous, t.result.current))

told : map shown manager.told ≡ (4, (none, "mine")) ∷ []
unfolding environments
told = refl

kept : (unregister "mine" manager).1 ≡ err (still_active "mine")
unfolding environments
kept = refl

-- The network of the options is passed over.
network_ignored :
    (register networks
      (record (at_tier local "x" "http://x") { network = some mainnet })
      manager).1.network
    ≡ local
unfolding register
network_ignored = refl

switch_cases_example :
    ((get "mine" manager.registry ≡ none)
      × (switch "mine" manager ≡ (manager, err (unregistered "mine" (list_ids manager)))))
    ⊎ ((c : EnvironmentConfig) × (get "mine" manager.registry ≡ some c)
        × ((IsFit c
              × (switch "mine" manager
                  ≡ (switched "mine" c manager, ok (result_of "mine" c manager))))
            ⊎ ((¬ IsFit c)
                × (switch "mine" manager
                    ≡ (manager, err (validation_failed "mine" (validate "mine" manager).issues))))))
switch_cases_example = switch_cases "mine" manager

run-IsSound_example : IsSound (run networks calls (new_manager networks true))
run-IsSound_example = run-IsSound networks true calls
