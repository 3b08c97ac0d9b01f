-- ===== src/Batch/Builder.antt =====
-- src/batch/batchBuilder.ts: BatchBuilder. A method that changes `this` returns the builder after the call.
-- A validator is an object with the two methods of BatchValidator.
use axionvera_sdk.Prelude.{
  ℕ, String, Bool, true, Option, none, some, List, [], ◌∷◌, ◌++◌, length, if◌then◌else◌, str_eq,
  or_else, ℤ, pos, Outcome, ok, err,
}
use axionvera_sdk.Batch.Types.{Transaction, Config, ValidationResult}
use axionvera_sdk.Batch.Validator.{
  validate as batch_validate, validate_or_throw as batch_validate_or_throw,
}

pub record Validator (Op Account : Type 0) : Type 0 where
  pub validate : List (Transaction Op) → Config Account → Option ValidationResult
  pub validate_or_throw :
      List (Transaction Op) → Config Account → Option (Outcome ValidationResult (Unit {0}))

abbrev pub batch_validator : {Op Account : Type 0} → Validator Op Account
batch_validator = record { validate = batch_validate; validate_or_throw = batch_validate_or_throw }

pub record Builder (Op Account : Type 0) : Type 0 where
  pub transactions : List (Transaction Op)
  pub config : Config Account
  pub validator : Validator Op Account
  pub last_validation : Option ValidationResult

pub data BuildError : Type 0 where
  needs_source_account needs_network_passphrase : BuildError

pub record Batch (Op Account : Type 0) : Type 0 where
  pub transactions : List (Transaction Op)
  pub config : Config Account

-- `!config.networkPassphrase`
abbrev pub is_missing : Option String → Bool
is_missing none = true
is_missing (some s) = str_eq s ""

module _ {Op Account : Type 0} where
  -- `new BatchBuilder(validator)`
  abbrev pub new_builder : Option (Validator Op Account) → Builder Op Account
  new_builder v = record {
    transactions = [];
    config = record {
      source_account = none;
      fee_per_operation = none;
      timeout_in_seconds = none;
      network_passphrase = none;
      stop_on_failure = none;
    };
    validator = or_else v batch_validator;
    last_validation = none;
  }

  abbrev pub with_source_account : Builder Op Account → Account → Builder Op Account
  with_source_account b a = record b { config = record b.config { source_account = some a } }

  abbrev pub with_network_passphrase : Builder Op Account → String → Builder Op Account
  with_network_passphrase b s = record b {
    config = record b.config { network_passphrase = some s };
  }

  abbrev pub with_fee_per_operation : Builder Op Account → ℤ → Builder Op Account
  with_fee_per_operation b z = record b { config = record b.config { fee_per_operation = some z } }

  abbrev pub with_timeout_in_seconds : Builder Op Account → ℤ → Builder Op Account
  with_timeout_in_seconds b z = record b {
    config = record b.config { timeout_in_seconds = some z };
  }

  abbrev pub with_stop_on_failure : Builder Op Account → Bool → Builder Op Account
  with_stop_on_failure b s = record b { config = record b.config { stop_on_failure = some s } }

  abbrev pub with_validator : Builder Op Account → Validator Op Account → Builder Op Account
  with_validator b v = record b { validator = v }

  abbrev pub add_transaction : Builder Op Account → Transaction Op → Builder Op Account
  add_transaction b t = record b { transactions = b.transactions ++ t ∷ [] }

  abbrev pub add : Builder Op Account → String → List Op → Builder Op Account
  add b label ops =
      add_transaction b
        (record { label = label; operations = ops; metadata = none; dependencies = none })

  abbrev pub size : Builder Op Account → ℕ
  size b = length b.transactions

  unfoldable pub build_config : Builder Op Account → Config Account
  build_config b = record {
    source_account = b.config.source_account;
    fee_per_operation = some (or_else b.config.fee_per_operation (pos 100000));
    timeout_in_seconds = some (or_else b.config.timeout_in_seconds (pos 60));
    network_passphrase = b.config.network_passphrase;
    stop_on_failure = some (or_else b.config.stop_on_failure true);
  }

  unfoldable pub validate : Builder Op Account → Option (Builder Op Account)
  validate b = elim (b.validator.validate b.transactions (build_config b)) [
    | none ↦ none
    | some r ↦ some (record b { last_validation = some r })
  ]

  -- The error is the result of the validation.
  unfoldable pub validate_or_throw :
      Builder Op Account → Option (Outcome ValidationResult (Builder Op Account))
  validate_or_throw b = elim (b.validator.validate_or_throw b.transactions (build_config b)) [
    | none ↦ none
    | some (err r) ↦ some (err r)
    | some (ok _) ↦
        some (ok (record b { last_validation = some (record { valid = true; issues = [] }) }))
  ]

  unfoldable pub build : Builder Op Account → Outcome BuildError (Batch Op Account)
  build b = elim b.config.source_account [
    | none ↦ err needs_source_account
    | some _ ↦
        if is_missing b.config.network_passphrase
        then err needs_network_passphrase
        else ok (record { transactions = b.transactions; config = build_config b })
  ]
