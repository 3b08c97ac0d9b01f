-- ===== src/Plugin/Types.antt =====
-- src/plugin/types.ts. A value that the plugins only pass on (a service, a middleware, the options of a
-- client) is known by a number. A hook is the code of a plugin: what it does is a function of the number of
-- hooks that ran before it, and `rejects` is a promise that fails later, where nothing awaits it.
use axionvera_sdk.Prelude.{ℕ, String, Bool, Option, List, Outcome}
use axionvera_sdk.Prelude.Dict.{Dict}

pub data State : Type 0 where
  unregistered registered installed active disabled error uninstalled : State

unfoldable pub State-discrete : Discrete State
State-discrete = hlevel

-- The errors and the warnings of a validation.
pub data Issue : Type 0 where
  no_id no_name no_version : Issue
  bad_id bad_version bad_min_sdk bad_max_sdk bad_sdk : String → Issue
  sdk_too_old sdk_too_new : String → String → Issue
  no_plugin_id : Issue
  bad_min_version : String → String → Issue
  not_installed : String → Issue
  too_old : String → String → String → Issue

-- What is thrown, by the manager or by a hook.
pub data Error : Type 0 where
  already_registered not_found : String → Error
  invalid_plugin : String → List Issue → Error
  invalid_transition : String → State → State → Error
  has_dependents : String → List String → Error
  unmet_dependencies : String → List Issue → Error
  circular : List (List String) → Error
  thrown : String → Error
  -- The engine's own error, for a recursion that is too deep.
  stack_overflow : Error

pub record ValidationResult : Type 0 where
  pub valid : Bool
  pub errors : List Issue
  pub warnings : List Issue

pub record Compatibility : Type 0 where
  pub min_sdk_version : Option String
  pub max_sdk_version : Option String

pub record Dependency : Type 0 where
  pub plugin_id : String
  pub min_version : Option String
  pub optional : Bool

pub record Manifest : Type 0 where
  pub id : String
  pub name : String
  pub version : String
  pub description : Option String
  pub compatibility : Option Compatibility
  pub dependencies : Option (List Dependency)
  pub keywords : Option (List String)

pub data Answer : Type 0 where
  returns : Answer
  throws rejects : String → Answer

abbrev pub Hook : Type 0
Hook = ℕ → Answer

pub record Hooks : Type 0 where
  pub on_register : Option Hook
  pub on_install : Option Hook
  pub on_enable : Option Hook
  pub on_disable : Option Hook
  pub on_uninstall : Option Hook
  -- the options given, and those returned, if any are
  pub before_client_init : Option (ℕ → ℕ → Outcome Error (Option ℕ))
  pub after_client_init : Option (ℕ → ℕ → Answer)
  pub on_error : Option (Error → Hook)

pub record Config : Type 0 where
  pub manifest : Manifest
  pub hooks : Option Hooks
  pub services : Option (Dict ℕ)
  pub middleware : Option (List ℕ)

-- `serial` tells an instance from another one of the same id.
pub record Instance : Type 0 where
  pub serial : ℕ
  pub config : Config
  pub state : State
  pub last_validation : Option ValidationResult
  pub last_error : Option Error

-- A setting that is not given is `none`.
pub record ManagerConfig : Type 0 where
  pub auto_install : Option Bool
  pub auto_enable : Option Bool
  pub validate_on_register : Option Bool
  pub sdk_version : Option String
  pub allow_incompatible : Option Bool

pub record RegistryEntry : Type 0 where
  pub manifest : Manifest
  pub source : String
  pub loaded : Bool
