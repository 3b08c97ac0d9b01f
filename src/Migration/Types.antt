-- ===== src/Migration/Types.antt =====
-- src/types/migration.ts. The state of a contract is a parameter. Times and durations are left out.
use axionvera_sdk.Prelude.{ℕ, String, Bool, Option, List, Outcome}

pub record ErrorInfo : Type 0 where
  pub name : String
  pub message : String

-- A value that is thrown: an `Error`, or any other with whether it is truthy and its `String(…)`.
pub data Thrown : Type 0 where
  error : ErrorInfo → Thrown
  other : Bool → String → Thrown

pub data Status : Type 0 where
  completed failed rolled_back : Status

pub data StepStatus : Type 0 where
  step_succeeded step_failed : StepStatus

pub record Context : Type 0 where
  pub contract_id : String
  pub dry_run : Bool
  pub metadata : Option String

pub record Step (S : Type 0) : Type 0 where
  pub id : String
  pub from_version : String
  pub to_version : String
  pub description : Option String
  pub migrate : S → Context → Outcome Thrown S
  pub rollback : Option (S → Context → Outcome Thrown S)

pub record Plan (S : Type 0) : Type 0 where
  pub contract_id : String
  pub from_version : String
  pub to_version : String
  pub steps : List (Step S)

pub record StepResult : Type 0 where
  pub step_id : String
  pub from_version : String
  pub to_version : String
  pub status : StepStatus
  pub error : Option ErrorInfo

pub record RunOptions : Type 0 where
  pub dry_run : Option Bool
  pub rollback_on_failure : Option Bool
  pub validate_state : Option Bool
  pub metadata : Option String

pub record Report : Type 0 where
  pub contract_id : String
  pub from_version : String
  pub to_version : String
  pub status : Status
  pub dry_run : Bool
  pub total_steps : ℕ
  pub succeeded_steps : ℕ
  pub failed_steps : ℕ
  pub steps : List StepResult
  pub rollback_steps : Option (List StepResult)

pub record RunResult (S : Type 0) : Type 0 where
  pub state : S
  pub report : Report
