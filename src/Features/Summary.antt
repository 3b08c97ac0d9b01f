-- ===== src/Features/Summary.antt =====
-- The queries of FeatureFlagsService (src/features/flags.ts) over all flags.
use axionvera_sdk.Prelude.{
  String, ◌+◌, ◌≤◌, Bool, true, Option, none, List, [], ◌∷◌, ◌≡◌, refl, sym, ◌∙◌, inl, inr, map,
  keep, length, length-map, arith, Bool-cases, eq_iff, ◌↔◌, ◌≢◌, In, length-keep-le,
}
use axionvera_sdk.Prelude.Dict.{Dict, get, values, Holds}
use axionvera_sdk.Features.Flag.{
  Definition, FlagState, PartialPolicy, same_stability, Stability-discrete, stable, beta,
  experimental, deprecated,
}
use axionvera_sdk.Features.Service.{
  Service, is_enabled, state_of, get_all_states, get_enabled_keys, get_summary, get_by_stability,
  Call, run, new_service,
}
use axionvera_sdk.Features.Registry.{IsKeyed, run-new_service-IsValid}

-- The keys of the enabled flags among some definitions.
enabled_keys : Service → List Definition → List String
enabled_keys s ds = map (λ f. f.definition.key) (keep (λ f. f.enabled) (map (state_of s) ds))

In-enabled_keys_iff :
    (s : Service) (k : String) (m : Dict Definition)
    → Holds IsKeyed m
    → In k (enabled_keys s (values m)) ↔ ((get k m ≢ none) × (is_enabled s k ≡ true))
unfolding enabled_keys get state_of
In-enabled_keys_iff s k [] h = ((λ x. absurd x), (λ x. absurd (x.0 refl)))
In-enabled_keys_iff s k ((j, d) ∷ m) (q, h) = elim (Bool-cases (is_enabled s d.key)) [
  | inl e ↦ rw e (ground (arith, eq_iff j k, In-enabled_keys_iff s k m h))
  | inr e ↦ rw e (ground (arith, eq_iff j k, In-enabled_keys_iff s k m h))
]

ne-none_of_is_enabled :
    (s : Service) (k : String) → is_enabled s k ≡ true → get k s.definitions ≢ none
unfolding is_enabled
ne-none_of_is_enabled s k h e = ground arith

-- In a service on which any calls were made, `getEnabledKeys` lists exactly the keys for which
-- `isEnabled` answers true.
pub In-get_enabled_keys_iff :
    (p : Option PartialPolicy) (o : Option (Dict Bool)) (cs : List Call) (k : String)
    → In k (get_enabled_keys (run (new_service p o) cs))
      ↔ (is_enabled (run (new_service p o) cs) k ≡ true)
unfolding get_enabled_keys enabled_keys
In-get_enabled_keys_iff p o cs k =
    let s = run (new_service p o) cs in
    let v = run-new_service-IsValid p o cs in
    let (to, from) = In-enabled_keys_iff s k s.definitions v.keyed in
    ((λ h. (to h).1), (λ h. from (ne-none_of_is_enabled s k h, h)))

-- The flags of every stability level, one after the other.
length-by_stability :
    (xs : List FlagState)
    → length (keep (λ f. same_stability f.definition.stability stable) xs)
        + length (keep (λ f. same_stability f.definition.stability beta) xs)
        + length (keep (λ f. same_stability f.definition.stability experimental) xs)
        + length (keep (λ f. same_stability f.definition.stability deprecated) xs)
      ≡ length xs
unfolding Stability-discrete
length-by_stability [] = refl
length-by_stability (x ∷ xs) = ground (arith, length-by_stability xs)

-- The summary counts the registered flags, those of them whose keys `getEnabledKeys` lists, and the
-- overrides; and the four stability levels of `getByStability` share the flags out.
pub get_summary_counts :
    (s : Service)
    → ((get_summary s).total_flags ≡ length s.definitions)
      × ((get_summary s).enabled_flags ≡ length (get_enabled_keys s))
      × ((get_summary s).enabled_flags ≤ (get_summary s).total_flags)
      × ((get_summary s).override_count ≡ length s.overrides)
      × (length (get_by_stability s stable)
            + length (get_by_stability s beta)
            + length (get_by_stability s experimental)
            + length (get_by_stability s deprecated)
          ≡ (get_summary s).total_flags)
unfolding get_summary get_enabled_keys get_by_stability
get_summary_counts s =
    let flags = get_all_states s in
    let total : length flags ≡ length s.definitions = length-map _ _ ∙ length-map _ _ in
    (total, sym (length-map _ _), length-keep-le _ flags, refl, length-by_stability flags)
