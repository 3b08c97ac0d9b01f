-- ===== src/Batch/Types.antt =====
-- src/batch/types.ts. The types of @stellar/stellar-sdk (accounts, operations, results of a simulation)
-- are parameters. A message is a constructor with what the text of the source mentions.
use axionvera_sdk.Prelude.{ℕ, String, Bool, Option, List, ℤ}

pub record Dependency : Type 0 where
  pub depends_on_index : ℤ
  pub label : Option String

pub record Transaction (Op : Type 0) : Type 0 where
  pub label : String
  pub operations : List Op
  pub metadata : Option String
  pub dependencies : Option (List Dependency)

pub record Config (Account : Type 0) : Type 0 where
  pub source_account : Option Account
  pub fee_per_operation : Option ℤ
  pub timeout_in_seconds : Option ℤ
  pub network_passphrase : Option String
  pub stop_on_failure : Option Bool

pub data Category : Type 0 where
  dependency fee account operation config : Category

pub data Message : Type 0 where
  source_account_required network_passphrase_required : Message
  fee_not_positive timeout_not_positive no_transactions : Message
  label_empty : ℕ → Message
  no_operations : ℕ → Message
  depends_on_itself : ℕ → Message
  out_of_range : ℕ → ℤ → Message
  does_not_precede : ℕ → ℕ → Message
  part_of_cycle : ℕ → Message

-- The index is `none` where the source has -1.
pub record Issue : Type 0 where
  pub transaction_index : Option ℕ
  pub label : Option String
  pub category : Category
  pub message : Message

pub record ValidationResult : Type 0 where
  pub valid : Bool
  pub issues : List Issue

pub record ErrorInfo : Type 0 where
  pub name : String
  pub message : String

pub record TransactionResult (Sim : Type 0) : Type 0 where
  pub index : ℕ
  pub label : String
  pub success : Bool
  pub result : Option Sim
  pub error : Option ErrorInfo
  pub duration_ms : ℕ

pub record BatchResult (Sim : Type 0) : Type 0 where
  pub total_count : ℕ
  pub success_count : ℕ
  pub failure_count : ℕ
  pub skipped_count : ℕ
  pub transactions : List (TransactionResult Sim)
  pub total_duration_ms : ℕ
  pub all_succeeded : Bool
  pub skipped_indices : List ℕ
