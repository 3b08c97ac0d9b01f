-- ===== src/Plugin/Resolution.antt =====
-- `resolveDependencies` of src/plugin/registry.ts always returns, with all that the plugin needs.
use mathlib.Core.Option.{some-injective}
use axionvera_sdk.Prelude.{
  or_else, In-keep_iff, ℕ, suc, zero, ◌≤◌, ◌<◌, ◌≡◌, refl, sym, ap, ◌∙◌, subst, inl, inr, ◌⊎◌,
  String, Bool, true, false, not, ◌||◌, Option, none, some, List, [], ◌∷◌, map, keep, length, arith,
  In, In-append_left, In-append_right, Bool-cases, Option-cases, str_eq,
}
use axionvera_sdk.Prelude.Dict.{get, has}
use axionvera_sdk.Plugin.Types.{Dependency, Manifest, RegistryEntry}
use axionvera_sdk.Plugin.Cycles.{is_member}
use axionvera_sdk.Plugin.Members.{is_member_iff, left, left-lt, left-le, left-le_length}
use axionvera_sdk.Plugin.Departed.{In-map}
use axionvera_sdk.Plugin.Registry.{
  Entries, required_by, Resolving, wanted, resolve_all, see, push_after, resolve, mentioned_in,
  manifests_of, resolve_dependencies,
}
use axionvera_sdk.Plugin.Listed.{IsLean, resolve-IsLean}
use axionvera_sdk.Plugin.Resolved.{
  Resolved, Resolved-nil, Resolved-cons, Resolved-seen, Resolved-missing, Resolved-push,
}

abbrev seen_in : Resolving → String → Bool
seen_in s i = is_member i s.seen

-- A filter and a map of a list have no other members than the list mapped.
In-map-keep :
    {A : Type 0} (f : A → String) (p : A → Bool) (i : String) (xs : List A)
    → In i (map f (keep p xs))
    → In i (map f xs)
In-map-keep f p i [] h = h
In-map-keep f p i (x ∷ xs) h = elim (Bool-cases (p x)) [
  | inl e ↦
      let step : map f (keep p (x ∷ xs)) ≡ f x ∷ map f (keep p xs) = rw e refl in
      elim (subst (In i) step h) [
        | inl here ↦ inl here
        | inr there ↦ inr (In-map-keep f p i xs there)
      ]
  | inr e ↦
      let step : map f (keep p (x ∷ xs)) ≡ map f (keep p xs) = rw e refl in
      inr (In-map-keep f p i xs (subst (In i) step h))
]

wanted-mentioned :
    (all entries : Entries) (id d : String) (e : RegistryEntry)
    → get id entries ≡ some e
    → In d (wanted all (required_by e.manifest))
    → In d (mentioned_in entries)
unfolding get wanted
wanted-mentioned all [] id d e found h = cc
wanted-mentioned all ((i, x) ∷ more) id d e found h = elim (Bool-cases (str_eq i id)) [
  | inl same ↦
      let hit : get id ((i, x) ∷ more) ≡ some x = rw same refl in
      let here = some-injective x e (sym hit ∙ found) in
      inr (
        In-append_left d _ _ (
          subst (λ y. In d (map (λ q. q.plugin_id) (required_by y.manifest))) (sym here)
            (In-map-keep (λ q. q.plugin_id) (λ q. not q.optional || has q.plugin_id all) d
              (required_by e.manifest) h)))
  | inr other ↦
      let miss : get id ((i, x) ∷ more) ≡ get id more = rw other refl in
      inr (In-append_right d _ _ (wanted-mentioned all more id d e (sym miss ∙ found) h))
]

module _ (entries : Entries) (all_ids : List String) where
  abbrev unseen : Resolving → ℕ
  unseen s = left (seen_in s) all_ids

  unseen-le : (s t : Resolving) → ((i : String) → In i s.seen → In i t.seen) → unseen t ≤ unseen s
  unseen-le s t grows =
      left-le (seen_in s) (seen_in t) all_ids
        (λ i e. (is_member_iff i t.seen).1 (grows i ((is_member_iff i s.seen).0 e)))

  see-unseen :
      (s : Resolving) (id : String)
      → In id all_ids
      → is_member id s.seen ≡ false
      → unseen (see s id) < unseen s
  see-unseen s id known new =
      left-lt (seen_in s) (seen_in (see s id)) id all_ids (λ i e. ground arith) known new
        ((is_member_iff id (id ∷ s.seen)).1 (inl refl))

  resolve_all_step :
      (go : String → Resolving → Option Resolving) (id : String) (ids : List String)
      (s t : Resolving)
      → go id s ≡ some t
      → resolve_all go (id ∷ ids) s ≡ resolve_all go ids t
  unfolding resolve_all
  resolve_all_step go id ids s t e = rw (e, resolve_all) refl

  resolve_all-Resolved :
      (go : String → Resolving → Option Resolving) (f : ℕ) (ids : List String)
      → ((id : String) (s : Resolving)
          → In id all_ids
          → unseen s < f
          → Resolved entries (id ∷ []) s (go id s))
      → (s : Resolving) → ((id : String) → In id ids → In id all_ids)
      → unseen s < f
      → Resolved entries ids s (resolve_all go ids s)
  unfolding resolve_all
  resolve_all-Resolved go f [] ih s known le = Resolved-nil entries s
  resolve_all-Resolved go f (id ∷ ids) ih s known le =
      let h = ih id s (known id (inl refl)) le in
      subst (Resolved entries (id ∷ ids) s) (sym (resolve_all_step go id ids s h.after h.done)) (
        Resolved-cons entries id ids s _ _ h (
          resolve_all-Resolved go f ids ih h.after (λ i m. known i (inr m))
            (omega (arith, unseen-le s h.after h.grows))))

  resolve_seen :
      (f : ℕ) (id : String) (s : Resolving)
      → is_member id s.seen ≡ true
      → resolve entries (suc f) id s ≡ some s
  unfolding resolve
  resolve_seen f id s h = rw (h, resolve) refl

  resolve_missing :
      (f : ℕ) (id : String) (s : Resolving)
      → is_member id s.seen ≡ false
      → get id entries ≡ none
      → resolve entries (suc f) id s ≡ some (see s id)
  unfolding resolve
  resolve_missing f id s h k = rw (h, resolve) (rw k refl)

  resolve_entry :
      (f : ℕ) (id : String) (s : Resolving) (e : RegistryEntry)
      → is_member id s.seen ≡ false
      → get id entries ≡ some e
      → resolve entries (suc f) id s
        ≡ push_after e.manifest
            (resolve_all (resolve entries f) (wanted entries (required_by e.manifest)) (see s id))
  unfolding resolve
  resolve_entry f id s e h k = rw (h, resolve) (rw k refl)

  resolve-Resolved :
      ((id d : String) (e : RegistryEntry)
        → get id entries ≡ some e
        → In d (wanted entries (required_by e.manifest))
        → In d all_ids)
      → (f : ℕ) (id : String) (s : Resolving) → In id all_ids
      → unseen s < f
      → Resolved entries (id ∷ []) s (resolve entries f id s)
  resolve-Resolved inside zero id s known le = absurd (omega arith)
  resolve-Resolved inside (suc f) id s known le = elim (Bool-cases (is_member id s.seen)) [
    | inl old ↦
        subst (Resolved entries (id ∷ []) s) (sym (resolve_seen f id s old))
          (Resolved-seen entries id s ((is_member_iff id s.seen).0 old))
    | inr new ↦ elim (Option-cases (get id entries)) [
      | inl gone ↦
          subst (Resolved entries (id ∷ []) s) (sym (resolve_missing f id s new gone))
            (Resolved-missing entries id s gone)
      | inr (e, found) ↦
          subst (Resolved entries (id ∷ []) s) (sym (resolve_entry f id s e new found)) (
            Resolved-push entries id s e _ found (
              resolve_all-Resolved (resolve entries f) f (wanted entries (required_by e.manifest))
                (resolve-Resolved inside f) (see s id) (λ d m. inside id d e found m)
                (omega (arith, see-unseen s id known new))))
    ]
  ]

never_before : {A : Type 0} → ⊥ ⊎ A → A
never_before (inl never) = absurd never
never_before (inr a) = a

-- A dependency that the registry has is gone into, required or optional.
wanted-there :
    (entries : Entries) (ds : List Dependency) (d : Dependency) (e : RegistryEntry)
    → In d ds
    → get d.plugin_id entries ≡ some e
    → In d.plugin_id (wanted entries ds)
unfolding wanted
wanted-there entries ds d e v there =
    In-map (λ q. q.plugin_id) d (keep (λ q. not q.optional || has q.plugin_id entries) ds)
      ((In-keep_iff (λ q. not q.optional || has q.plugin_id entries) d ds).1
        (v, rw there (ground arith)))

-- A list of manifests that goes with the plugin of an id.
pub record IsComplete (entries : Entries) (id : String) (ms : List Manifest) : Type 0 where
  pub has_target : (e : RegistryEntry) → get id entries ≡ some e → In e.manifest ms
  pub registered_only :
      (m : Manifest)
      → In m ms
      → (j : String) × (e : RegistryEntry) × (get j entries ≡ some e) × (e.manifest ≡ m)
  pub has_dependencies :
      (m : Manifest) (ds : List Dependency) (d : Dependency) (e : RegistryEntry)
      → In m ms
      → m.dependencies ≡ some ds
      → In d ds
      → get d.plugin_id entries ≡ some e
      → In e.manifest ms
  pub lean : IsLean entries id ms

-- resolveDependencies always returns, cycles or not. Its list has the manifest of the plugin, if the registry has
-- it, and with each manifest those of all its dependencies that the registry has, required or optional. It lists the
-- manifests that the registry has under ids that are all different and that the plugin needs, itself or over a chain
-- of dependencies.
pub resolve_dependencies-IsComplete :
    (entries : Entries) (id : String)
    → (ms : List Manifest) × (resolve_dependencies id entries ≡ some ms) × IsComplete entries id ms
unfolding resolve_dependencies
resolve_dependencies-IsComplete entries id =
    let all_ids = id ∷ mentioned_in entries in
    let start : Resolving = record { seen = []; resolved = [] } in
    let h =
      resolve-Resolved entries all_ids
        (λ i d e found m. inr (wanted-mentioned entries entries i d e found m))
        (suc (suc (length (mentioned_in entries)))) id start (inl refl)
        (omega (arith, left-le_length (seen_in start) all_ids)) in
    (
      h.after.resolved,
      ap manifests_of h.done,
      record {
        has_target = λ e there. never_before (h.settled id e (h.reached id (inl refl)) there);
        registered_only = λ m w. elim (h.closed m w) [
          | inl never ↦ absurd never
          | inr (j, c) ↦ (j, c.entry, c.there, c.same)
        ];
        has_dependencies = λ m ds d e w lists v there. elim (h.closed m w) [
          | inl never ↦ absurd never
          | inr (j, c) ↦ never_before (
              h.settled d.plugin_id e
                (c.all_seen d.plugin_id (
                  wanted-there entries (required_by m) d e
                    (subst (λ o. In d (or_else o [])) (sym lists) v) there))
                there)
        ];
        lean = resolve-IsLean entries (suc (suc (length (mentioned_in entries)))) id h.after h.done;
      },
    )
