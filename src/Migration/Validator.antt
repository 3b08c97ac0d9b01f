-- ===== src/Migration/Validator.antt =====
-- src/migrations/stateValidator.ts: MigrationStateValidator. A schema of valibot is a parameter: what
-- `safeParse` gives, the output or the text of the issues.
use axionvera_sdk.Prelude.{String, Bool, none, some, Outcome, ok, err}
use axionvera_sdk.Prelude.Dict.{Dict, get, set, delete, has}
use Prim.Native.String.{◌++◌ as append_text}
use axionvera_sdk.Migration.Types.{Thrown, error}

abbrev pub Schema : Type 0 → Type 0
Schema S = S → Outcome String S

abbrev pub Validator : Type 0 → Type 0
Validator S = Dict (Schema S)

abbrev pub key : String → String → String
key contract version = append_text contract (append_text "::" version)

-- MigrationStateValidationError
abbrev pub invalid_state : String → String → String → Thrown
invalid_state contract version summary = error (record {
  name = "MigrationStateValidationError";
  message = append_text "State validation failed for contract \"" (
      append_text contract
        (append_text "\" at version \"" (append_text version (append_text "\": " summary))));
})

module _ {S : Type 0} where
  abbrev pub register_state_schema : Validator S → String → String → Schema S → Validator S
  register_state_schema v contract version schema = set (key contract version) schema v

  abbrev pub unregister_state_schema : Validator S → String → String → Validator S
  unregister_state_schema v contract version = delete (key contract version) v

  abbrev pub has_state_schema : Validator S → String → String → Bool
  has_state_schema v contract version = has (key contract version) v

  unfoldable pub validate_state : Validator S → String → String → S → Outcome Thrown S
  unfolding get
  validate_state v contract version s = elim (get (key contract version) v) [
    | none ↦ ok s
    | some schema ↦ elim (schema s) [
      | ok out ↦ ok out
      | err summary ↦ err (invalid_state contract version summary)
    ]
  ]
