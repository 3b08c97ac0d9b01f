-- ===== src/Features/BuiltIn.antt =====
-- src/features/flags.ts: the built-in flags.
use axionvera_sdk.Prelude.{String, Bool, true, false, none, List, [], ◌∷◌}
use axionvera_sdk.Features.Flag.{Stability, stable, beta, experimental, Definition}

-- A built-in flag; none of them is deprecated or scheduled for removal.
abbrev flag : String → String → String → Bool → Stability → String → Definition
flag key name description default_value stability since = record {
  key = key;
  name = name;
  description = description;
  default_value = default_value;
  stability = stability;
  since_version = since;
  deprecated_in_version = none;
  scheduled_removal_version = none;
  migration_note = none;
}

unfoldable pub built_in_feature_flags : List Definition
built_in_feature_flags =
    flag "batchDeposits" "Batch Deposits"
      "Enable batch deposit functionality that submits multiple deposits in a single transaction."
      false beta "1.1.0"
    ∷ flag "offlineSigning" "Offline Transaction Signing"
        "Allow transactions to be prepared and signed without a live network connection." false
        experimental "1.2.0"
    ∷ flag "advancedEventParsing" "Advanced Event Parsing"
        "Enable deep decoding of contract event bodies with full type metadata." false beta "1.3.0"
    ∷ flag "contractReflection" "Contract Reflection"
        "Enable runtime introspection of contract methods, events, and parameters." true stable
        "1.0.0"
    ∷ flag "xdrValidation" "XDR Validation"
        "Validate XDR payloads against the Stellar XDR schema before submission." true stable
        "1.0.0"
    ∷ flag "telemetry" "Telemetry Collection"
        "Collect anonymous usage telemetry for SDK improvement." true stable "1.0.0"
    ∷ flag "concurrencyControl" "Concurrency Control"
        "Enable built-in request throttling and concurrency management." true stable "1.0.0"
    ∷ flag "pluginSystem" "Plugin System"
        "Enable the extensible plugin architecture for third-party plugins." true beta "1.4.0"
    ∷ flag "contractMigration" "Contract Migration Toolkit"
        "Enable tools for migrating between contract versions with state preservation." false
        experimental "1.4.0"
    ∷ flag "stateHydration" "Client State Hydration"
        "Enable serialization and restoration of client state across sessions." true beta "1.2.0"
    ∷ []
