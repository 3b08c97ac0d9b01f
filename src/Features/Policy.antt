-- ===== src/Features/Policy.antt =====
-- src/features/policies.ts: presets, their selection by environment, and merging.
use axionvera_sdk.Prelude.{
  String, true, false, Option, none, some, List, [], ◌∷◌, ◌≡◌, refl, ◌||◌, str_eq, if◌then◌else◌,
  or_else, map, arith,
}
use axionvera_sdk.Features.Flag.{Policy, PartialPolicy}

abbrev pub production_policy : Policy
production_policy = record {
  allow_beta = false;
  allow_experimental = false;
  allow_deprecated = false;
}

abbrev pub staging_policy : Policy
staging_policy = record { allow_beta = true; allow_experimental = false; allow_deprecated = false }

abbrev pub development_policy : Policy
development_policy = record {
  allow_beta = true;
  allow_experimental = true;
  allow_deprecated = false;
}

abbrev pub permissive_preset : Policy
permissive_preset = record { allow_beta = true; allow_experimental = true; allow_deprecated = true }

-- `node_env` is `process.env.NODE_ENV`, and `lower` is the host's `toLowerCase`.
unfoldable pub resolve_policy_from_environment :
    (String → String) → Option String → Option String → Policy
resolve_policy_from_environment lower env node_env =
    let environment = lower (or_else env (or_else node_env "production")) in
    if str_eq environment "production"
    then production_policy
    else if str_eq environment "staging"
    then staging_policy
    else if str_eq environment "development" || str_eq environment "test"
    then development_policy
    else production_policy

-- `{ ...policy, ...partial }`, of settings that are given or absent.
unfoldable pub override_policy : Policy → PartialPolicy → Policy
override_policy p q = record {
  allow_beta = or_else q.allow_beta p.allow_beta;
  allow_experimental = or_else q.allow_experimental p.allow_experimental;
  allow_deprecated = or_else q.allow_deprecated p.allow_deprecated;
}

-- The loop of `mergePolicies`.
unfoldable pub merge_onto : Policy → List PartialPolicy → Policy
unfolding override_policy
merge_onto merged [] = merged
merge_onto merged (q ∷ qs) = merge_onto (override_policy merged q) qs

unfoldable pub merge_policies : List PartialPolicy → Policy
unfolding merge_onto
merge_policies qs =
    merge_onto (record { allow_beta = false; allow_experimental = false; allow_deprecated = false })
      qs

-- The last value that a list of optional settings gives.
unfoldable pub last_given : {A : Type 0} → List (Option A) → Option A
last_given [] = none
last_given (x ∷ xs) = elim (last_given xs) [ none ↦ x | some a ↦ some a ]

merge_onto-last_given :
    (p : Policy) (qs : List PartialPolicy)
    → merge_onto p qs ≡ record {
      allow_beta = or_else (last_given (map (λ q. q.allow_beta) qs)) p.allow_beta;
      allow_experimental =
          or_else (last_given (map (λ q. q.allow_experimental) qs)) p.allow_experimental;
      allow_deprecated = or_else (last_given (map (λ q. q.allow_deprecated) qs)) p.allow_deprecated;
    }
unfolding merge_onto last_given
merge_onto-last_given p [] = refl
merge_onto-last_given p (q ∷ qs) = ground (arith, merge_onto-last_given (override_policy p q) qs)

-- Each setting of the merged policy is the last one given for it, and off if none is.
pub merge_policies-last_given :
    (qs : List PartialPolicy)
    → merge_policies qs ≡ record {
      allow_beta = or_else (last_given (map (λ q. q.allow_beta) qs)) false;
      allow_experimental = or_else (last_given (map (λ q. q.allow_experimental) qs)) false;
      allow_deprecated = or_else (last_given (map (λ q. q.allow_deprecated) qs)) false;
    }
unfolding merge_policies
merge_policies-last_given qs = merge_onto-last_given _ qs
