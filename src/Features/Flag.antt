-- ===== src/Features/Flag.antt =====
-- src/features/types.ts: stability levels, flag definitions and policies.
use axionvera_sdk.Prelude.{ℕ, String, Bool, true, false, Option, List, [], same}
use axionvera_sdk.Prelude.Dict.{Dict}

pub data Stability : Type 0 where
  stable beta experimental deprecated : Stability

unfoldable pub Stability-discrete : Discrete Stability
Stability-discrete = hlevel

abbrev pub same_stability : Stability → Stability → Bool
same_stability = same Stability-discrete

pub record Definition : Type 0 where
  pub key : String
  pub name : String
  pub description : String
  pub default_value : Bool
  pub stability : Stability
  pub since_version : String
  pub deprecated_in_version : Option String
  pub scheduled_removal_version : Option String
  pub migration_note : Option String

pub record Policy : Type 0 where
  pub allow_beta : Bool
  pub allow_experimental : Bool
  pub allow_deprecated : Bool

abbrev pub default_policy : Policy
default_policy = record { allow_beta = false; allow_experimental = false; allow_deprecated = false }

abbrev pub permissive_policy : Policy
permissive_policy = record { allow_beta = true; allow_experimental = true; allow_deprecated = true }

-- `Partial<FeaturePolicy>`
pub record PartialPolicy : Type 0 where
  pub allow_beta : Option Bool
  pub allow_experimental : Option Bool
  pub allow_deprecated : Option Bool

pub record Config : Type 0 where
  pub policy : Policy
  pub overrides : Dict Bool

abbrev pub default_config : Config
default_config = record { policy = default_policy; overrides = [] }

pub record FlagState : Type 0 where
  pub definition : Definition
  pub enabled : Bool
  pub is_overridden : Bool

pub record EvaluationContext : Type 0 where
  pub flag : Definition
  pub policy : Policy
  pub override : Option Bool

pub record FlagsSummary : Type 0 where
  pub total_flags : ℕ
  pub enabled_flags : ℕ
  pub policy : Policy
  pub override_count : ℕ
  pub flags : List FlagState
