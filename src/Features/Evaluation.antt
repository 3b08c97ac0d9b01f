-- ===== src/Features/Evaluation.antt =====
-- src/features/evaluation.ts. The `default` branches of its switches are for values outside the enum.
use axionvera_sdk.Prelude.{
  String, Bool, true, Option, none, some, List, ◌||◌, not, keep, if◌then◌else◌, str_eq,
}
use Prim.Native.String.{◌++◌}
use axionvera_sdk.Features.Flag.{
  Stability, stable, beta, experimental, deprecated, same_stability, Definition, Policy,
  EvaluationContext,
}

-- The switch over the stability that `evaluateFeature` and `evaluateAgainstPolicy` share.
unfoldable pub allowed_by : Policy → Stability → Bool
allowed_by p stable = true
allowed_by p beta = p.allow_beta
allowed_by p experimental = p.allow_experimental
allowed_by p deprecated = p.allow_deprecated

unfoldable pub evaluate_feature : Definition → Policy → Option Bool → Bool
unfolding allowed_by
evaluate_feature d p (some override) = override
evaluate_feature d p none = allowed_by p d.stability

unfoldable pub create_evaluation_context : Definition → Policy → Option Bool → EvaluationContext
create_evaluation_context flag policy override = record {
  flag = flag;
  policy = policy;
  override = override;
}

unfoldable pub is_production_safe : Stability → Bool
is_production_safe s = same_stability s stable || same_stability s beta

unfoldable pub get_stability_label : Stability → String
get_stability_label stable = "Stable"
get_stability_label beta = "Beta"
get_stability_label experimental = "Experimental"
get_stability_label deprecated = "Deprecated"

-- `if (part) warning += before + part`: an empty part counts as absent.
unfoldable pub append_part : String → String → Option String → String
append_part warning before none = warning
append_part warning before (some part) =
    if str_eq part "" then warning else warning ++ (before ++ part)

unfoldable pub get_deprecation_warning : Definition → Option String
unfolding append_part
get_deprecation_warning d =
    let opening = "Feature \"" ++ (d.key ++ "\" is deprecated") in
    let since = append_part opening " since v" d.deprecated_in_version in
    let removal = append_part since " and will be removed in v" d.scheduled_removal_version in
    let note = append_part removal ". " d.migration_note in
    if not (same_stability d.stability deprecated) then none else some (note ++ ".")

unfoldable pub filter_by_stability : List Definition → Stability → List Definition
filter_by_stability flags s = keep (λ f. same_stability f.stability s) flags
