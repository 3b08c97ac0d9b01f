-- ===== src/Plugin/Validation.antt =====
-- src/plugin/validation.ts: validatePlugin and validateDependencies.
use Prim.Native.Nat.{Ordering}
use axionvera_sdk.Prelude.{
  ℕ, String, Bool, true, false, not, ◌&&◌, ◌||◌, Option, none, some, List, [], ◌∷◌, ◌++◌,
  if◌then◌else◌, ◌==◌, is_empty, is_some, str_eq, or_else,
}
use axionvera_sdk.Prelude.Dict.{Dict, get}
use axionvera_sdk.Plugin.Types.{
  Compatibility, Dependency, Config, Instance, ValidationResult, Issue, no_id, bad_id, no_name,
  no_version, bad_version, bad_min_sdk, bad_max_sdk, bad_sdk, sdk_too_old, sdk_too_new,
  no_plugin_id, bad_min_version, not_installed, too_old,
}
use axionvera_sdk.Plugin.SemVer.{
  SemVer, codes, is_alphanumeric, is_digit, parse_sem_ver, compare_sem_ver, satisfies_min_version,
}

-- A text that is empty counts as not given.
abbrev pub is_blank : String → Bool
is_blank s = str_eq s ""

abbrev pub given : Option String → Option String
given none = none
given (some s) = if is_blank s then none else some s

-- PLUGIN_ID_REGEX: a letter, then letters, digits, and single points or hyphens between those. `joined` tells
-- that the last character was a point or a hyphen.
unfoldable pub is_plugin_id_from : Bool → List ℕ → Bool
is_plugin_id_from joined [] = not joined
is_plugin_id_from joined (c ∷ cs) =
    let rest = is_plugin_id_from (not (is_alphanumeric c)) cs in
    if is_alphanumeric c then rest else (not joined && ((c == b'.') || (c == b'-'))) && rest

unfoldable pub is_plugin_id : List ℕ → Bool
is_plugin_id [] = false
is_plugin_id (c ∷ cs) = (is_alphanumeric c && not (is_digit c)) && is_plugin_id_from false cs

abbrev pub same_flag : Bool → Bool → Bool
same_flag a b = if a then b else not b

-- `if (test) issues.push(issue)`
abbrev pub report : Bool → Issue → List Issue
report test issue = if test then issue ∷ [] else []

-- An optional version that is given has to be one.
abbrev pub report_version : Option String → (String → Issue) → List Issue
report_version none issue = []
report_version (some s) issue = report (not (is_some (parse_sem_ver (codes s)))) (issue s)

abbrev pub is_lower : Ordering → Bool
is_lower o = elim o [ Ordering.lt ↦ true | _ ↦ false ]

abbrev pub is_higher : Ordering → Bool
is_higher o = elim o [ Ordering.gt ↦ true | _ ↦ false ]

unfoldable pub result_of : List Issue → List Issue → ValidationResult
result_of errors warnings = record { valid = is_empty errors; errors = errors; warnings = warnings }

unfoldable pub dependency_errors : List Dependency → List Issue
dependency_errors [] = []
dependency_errors (d ∷ ds) =
    report (is_blank d.plugin_id) no_plugin_id
    ++ (report_version (given d.min_version) (bad_min_version d.plugin_id) ++ dependency_errors ds)

abbrev pub dependencies_of : Config → List Dependency
dependencies_of c = or_else c.manifest.dependencies []

abbrev pub id_errors : String → List Issue
id_errors id =
    if is_blank id then no_id ∷ [] else report (not (is_plugin_id (codes id))) (bad_id id)

abbrev pub version_errors : String → List Issue
version_errors version =
    if is_blank version then no_version ∷ [] else report_version (some version) bad_version

unfoldable pub compatibility_warnings : Option Compatibility → Option String → List Issue
compatibility_warnings none sdk_version = []
compatibility_warnings (some c) sdk_version = report_version (given sdk_version) bad_sdk

module _ (collate : List ℕ → List ℕ → Ordering) where
  -- A bound on the version of the SDK; one that is no version is passed over here.
  unfoldable pub report_bound :
      (Ordering → Bool) → SemVer → Option String → (String → Issue) → List Issue
  report_bound breaks sdk none issue = []
  report_bound breaks sdk (some bound) issue = elim (parse_sem_ver (codes bound)) [
    | none ↦ []
    | some limit ↦ report (breaks (compare_sem_ver collate sdk limit)) (issue bound)
  ]

  unfoldable pub sdk_errors : Compatibility → Option String → List Issue
  sdk_errors c none = []
  sdk_errors c (some sdk_version) = elim (parse_sem_ver (codes sdk_version)) [
    | none ↦ []
    | some sdk ↦
        report_bound is_lower sdk (given c.min_sdk_version) (λ v. sdk_too_old v sdk_version)
        ++ report_bound is_higher sdk (given c.max_sdk_version) (λ v. sdk_too_new v sdk_version)
  ]

  unfoldable pub compatibility_errors : Option Compatibility → Option String → List Issue
  compatibility_errors none sdk_version = []
  compatibility_errors (some c) sdk_version =
      report_version (given c.min_sdk_version) bad_min_sdk
      ++ (report_version (given c.max_sdk_version) bad_max_sdk ++ sdk_errors c (given sdk_version))

  unfoldable pub validate_plugin : Config → Option String → ValidationResult
  validate_plugin config sdk_version =
      let m = config.manifest in
      result_of
        (id_errors m.id
          ++ (report (is_blank m.name) no_name
              ++ (version_errors m.version
                  ++ (compatibility_errors m.compatibility sdk_version
                      ++ dependency_errors (dependencies_of config)))))
        (compatibility_warnings m.compatibility sdk_version)

  -- What is wrong with a dependency, in the light of the installed plugins.
  unfoldable pub unmet : Dependency → Option Instance → List Issue
  unmet d none = not_installed d.plugin_id ∷ []
  unmet d (some p) = elim (given d.min_version) [
    | none ↦ []
    | some min ↦
        report (not (satisfies_min_version collate p.config.manifest.version min))
          (too_old d.plugin_id p.config.manifest.version min)
  ]

  -- The issues of the dependencies that are required, and of those that are not.
  unfoldable pub unmet_among : Bool → List Dependency → Dict Instance → List Issue
  unmet_among optional [] installed = []
  unmet_among optional (d ∷ ds) installed =
      let rest = unmet_among optional ds installed in
      if same_flag d.optional optional then unmet d (get d.plugin_id installed) ++ rest else rest

  unfoldable pub validate_dependencies : List Dependency → Dict Instance → ValidationResult
  validate_dependencies ds installed =
      result_of (unmet_among false ds installed) (unmet_among true ds installed)
