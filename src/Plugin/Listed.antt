-- ===== src/Plugin/Listed.antt =====
-- What `resolveDependencies` of src/plugin/registry.ts lists: each entry of the registry at most once, and only what
-- the plugin needs.
use mathlib.Core.Option.{some-injective, none-ne-some}
use axionvera_sdk.Prelude.{
  ℕ, suc, zero, ◌≡◌, refl, sym, ap, ◌∙◌, subst, inl, inr, String, not, ◌||◌, Option, none, some,
  List, [], ◌∷◌, ◌++◌, append_assoc, append-nil, map, keep, or_else, In, In-append_cases,
  In-keep_iff, Bool-cases, Option-cases,
}
use axionvera_sdk.Prelude.Dict.{get, has}
use axionvera_sdk.Plugin.Types.{Dependency, Manifest, RegistryEntry}
use axionvera_sdk.Plugin.Cycles.{is_member}
use axionvera_sdk.Plugin.Members.{is_member_not}
use axionvera_sdk.Plugin.Registry.{
  Entries, required_by, Resolving, wanted, resolve_all, see, push_after, resolve,
}

-- The plugin of the first id needs that of the second: it is the same, or one of its dependencies needs it.
pub data Needs (entries : Entries) : String → String → Type 0 where
  itself : (id : String) → Needs entries id id
  through :
      (id i : String) (e : RegistryEntry) (ds : List Dependency) (d : Dependency)
      → get id entries ≡ some e
      → e.manifest.dependencies ≡ some ds
      → In d ds
      → Needs entries d.plugin_id i
      → Needs entries id i

-- No member comes again.
abbrev pub IsOnce : List String → Type 0
IsOnce [] = Unit
IsOnce (i ∷ is) = (¬ In i is) × IsOnce is

-- The manifests that the registry has under the ids, in order.
abbrev pub StandUnder : Entries → List String → List Manifest → Type 0
StandUnder entries [] ms = ms ≡ []
StandUnder entries (i ∷ is) ms =
    (e : RegistryEntry) × (rest : List Manifest) × (get i entries ≡ some e)
    × (ms ≡ e.manifest ∷ rest)
    × StandUnder entries is rest

IsOnce-append :
    (is js : List String)
    → IsOnce is
    → IsOnce js
    → ((i : String) → In i is → ¬ In i js)
    → IsOnce (is ++ js)
IsOnce-append [] js o p apart = p
IsOnce-append (i ∷ is) js (first, o) p apart = (
  (λ m. elim (In-append_cases i is js m) [
    | inl again ↦ first again
    | inr later ↦ apart i (inl refl) later
  ]),
  IsOnce-append is js o p (λ x m. apart x (inr m)),
)

In-unmap :
    (i : String) (ds : List Dependency)
    → In i (map (λ d. d.plugin_id) ds)
    → (d : Dependency) × In d ds × (d.plugin_id ≡ i)
In-unmap i [] m = absurd m
In-unmap i (d ∷ ds) (inl here) = (d, inl refl, sym here)
In-unmap i (d ∷ ds) (inr there) = let (x, m, e) = In-unmap i ds there in (x, inr m, e)

named_in :
    (o : Option (List Dependency)) (d : Dependency)
    → In d (or_else o [])
    → (ds : List Dependency) × (o ≡ some ds) × In d ds
named_in none d m = absurd m
named_in (some ds) d m = (ds, refl, m)

module _ (entries : Entries) where
  StandUnder-append :
      (is js : List String) (ms ns : List Manifest)
      → StandUnder entries is ms
      → StandUnder entries js ns
      → StandUnder entries (is ++ js) (ms ++ ns)
  StandUnder-append [] js ms ns h k = subst (StandUnder entries js) (sym (ap (λ x. x ++ ns) h)) k
  StandUnder-append (i ∷ is) js ms ns (e, rest, found, split, h) k =
      (e, rest ++ ns, found, ap (λ x. x ++ ns) split, StandUnder-append is js rest ns h k)

  wanted-Needs :
      (id i j : String) (e : RegistryEntry)
      → get id entries ≡ some e
      → In j (wanted entries (required_by e.manifest))
      → Needs entries j i
      → Needs entries id i
  unfolding wanted
  wanted-Needs id i j e found m n =
      let (d, among, same) =
        In-unmap j (keep (λ d. not d.optional || has d.plugin_id entries) (required_by e.manifest))
          m in
      let (ds, lists, there) = named_in e.manifest.dependencies d (
        ((In-keep_iff (λ d. not d.optional || has d.plugin_id entries) d (required_by e.manifest)).0
          among).0) in
      through id i e ds d found lists there (subst (λ x. Needs entries x i) (sym same) n)

  -- What resolving some ids adds to the list.
  record Listed (ids : List String) (s t : Resolving) : Type 0 where
    new : List String
    added : List Manifest
    grown : t.resolved ≡ s.resolved ++ added
    under : StandUnder entries new added
    once : IsOnce new
    fresh : (i : String) → In i new → ¬ In i s.seen
    now_seen : (i : String) → In i new → In i t.seen
    grows : (i : String) → In i s.seen → In i t.seen
    needed : (i : String) → In i new → (j : String) × In j ids × Needs entries j i

  Listed-nil :
      (ids : List String) (s t : Resolving)
      → t.resolved ≡ s.resolved
      → ((i : String) → In i s.seen → In i t.seen)
      → Listed ids s t
  Listed-nil ids s t same grows = record {
    new = [];
    added = [];
    grown = same ∙ sym (append-nil s.resolved);
    under = refl;
    once = tt;
    fresh = λ i m. absurd m;
    now_seen = λ i m. absurd m;
    grows = grows;
    needed = λ i m. absurd m;
  }

  Listed-cons :
      (id : String) (ids : List String) (s u t : Resolving)
      → Listed (id ∷ []) s u
      → Listed ids u t
      → Listed (id ∷ ids) s t
  Listed-cons id ids s u t h k = record {
    new = h.new ++ k.new;
    added = h.added ++ k.added;
    grown = k.grown ∙ ap (λ x. x ++ k.added) h.grown ∙ append_assoc s.resolved h.added k.added;
    under = StandUnder-append h.new k.new h.added k.added h.under k.under;
    once = IsOnce-append h.new k.new h.once k.once (λ i m n. k.fresh i n (h.now_seen i m));
    fresh = λ i m before. elim (In-append_cases i h.new k.new m) [
      | inl first ↦ h.fresh i first before
      | inr later ↦ k.fresh i later (h.grows i before)
    ];
    now_seen = λ i m. elim (In-append_cases i h.new k.new m) [
      | inl first ↦ k.grows i (h.now_seen i first)
      | inr later ↦ k.now_seen i later
    ];
    grows = λ i m. k.grows i (h.grows i m);
    needed = λ i m. elim (In-append_cases i h.new k.new m) [
      | inl first ↦
          let (j, among, n) = h.needed i first in
          elim among [ inl here ↦ (j, inl here, n) | inr never ↦ absurd never ]
      | inr later ↦ let (j, among, n) = k.needed i later in (j, inr among, n)
    ];
  }

  -- An id with an entry, after its dependencies.
  Listed-push :
      (id : String) (s u : Resolving) (e : RegistryEntry)
      → get id entries ≡ some e
      → ¬ In id s.seen
      → Listed (wanted entries (required_by e.manifest)) (see s id) u
      → Listed (id ∷ []) s (record u { resolved = u.resolved ++ e.manifest ∷ [] })
  Listed-push id s u e found unseen h = record {
    new = h.new ++ id ∷ [];
    added = h.added ++ e.manifest ∷ [];
    grown =
        ap (λ x. x ++ e.manifest ∷ []) h.grown ∙ append_assoc s.resolved h.added (e.manifest ∷ []);
    under =
        StandUnder-append h.new (id ∷ []) h.added (e.manifest ∷ []) h.under
          (e, [], found, refl, refl);
    once =
        IsOnce-append h.new (id ∷ []) h.once ((λ m. m), tt)
          (λ i m n. elim n [ inl here ↦ h.fresh i m (inl here) | inr never ↦ absurd never ]);
    fresh = λ i m before. elim (In-append_cases i h.new (id ∷ []) m) [
      | inl first ↦ h.fresh i first (inr before)
      | inr last ↦ elim last [
        | inl here ↦ unseen (subst (λ x. In x s.seen) here before)
        | inr never ↦ absurd never
      ]
    ];
    now_seen = λ i m. elim (In-append_cases i h.new (id ∷ []) m) [
      | inl first ↦ h.now_seen i first
      | inr last ↦ elim last [ inl here ↦ h.grows i (inl here) | inr never ↦ absurd never ]
    ];
    grows = λ i m. h.grows i (inr m);
    needed = λ i m. elim (In-append_cases i h.new (id ∷ []) m) [
      | inl first ↦
          let (j, among, n) = h.needed i first in
          (id, inl refl, wanted-Needs id i j e found among n)
      | inr last ↦ elim last [
        | inl here ↦ (id, inl refl, subst (λ x. Needs entries id x) (sym here) (itself id))
        | inr never ↦ absurd never
      ]
    ];
  }

  -- What one call of the search adds.
  abbrev Lists : (String → Resolving → Option Resolving) → Type 0
  Lists go = (id : String) (s t : Resolving) → go id s ≡ some t → Listed (id ∷ []) s t

  resolve_all-Listed :
      (go : String → Resolving → Option Resolving)
      → Lists go
      → (ids : List String) (s t : Resolving) → resolve_all go ids s ≡ some t
      → Listed ids s t
  unfolding resolve_all
  resolve_all-Listed go ih [] s t k =
      let same = some-injective s t k in
      Listed-nil [] s t (ap (λ x. x.resolved) (sym same)) (λ i m. subst (λ x. In i x.seen) same m)
  resolve_all-Listed go ih (id ∷ ids) s t k = elim (Option-cases (go id s)) [
    | inl stuck ↦
        let step : resolve_all go (id ∷ ids) s ≡ none = rw (stuck, resolve_all) refl in
        absurd (none-ne-some t (sym step ∙ k))
    | inr (u, gone) ↦
        let step : resolve_all go (id ∷ ids) s ≡ resolve_all go ids u =
          rw (gone, resolve_all) refl in
        Listed-cons id ids s u t (ih id s u gone) (resolve_all-Listed go ih ids u t (sym step ∙ k))
  ]

  resolve-Listed : (f : ℕ) → Lists (resolve entries f)
  unfolding resolve
  resolve-Listed zero id s t k = absurd (none-ne-some t k)
  resolve-Listed (suc f) id s t k = elim (Bool-cases (is_member id s.seen)) [
    | inl old ↦
        let step : resolve entries (suc f) id s ≡ some s = rw (old, resolve) refl in
        let same = some-injective s t (sym step ∙ k) in
        Listed-nil (id ∷ []) s t (ap (λ x. x.resolved) (sym same))
          (λ i m. subst (λ x. In i x.seen) same m)
    | inr new ↦ elim (Option-cases (get id entries)) [
      | inl gone ↦
          let step : resolve entries (suc f) id s ≡ some (see s id) =
            rw (new, resolve) (rw gone refl) in
          let same = some-injective (see s id) t (sym step ∙ k) in
          Listed-nil (id ∷ []) s t (ap (λ x. x.resolved) (sym same))
            (λ i m. subst (λ x. In i x.seen) same (inr m))
      | inr (e, found) ↦
          let inner =
            resolve_all (resolve entries f) (wanted entries (required_by e.manifest)) (see s id) in
          let step : resolve entries (suc f) id s ≡ push_after e.manifest inner =
            rw (new, resolve) (rw found refl) in
          elim (Option-cases inner) [
            | inl stuck ↦
                absurd (none-ne-some t (sym (step ∙ ap (push_after e.manifest) stuck) ∙ k))
            | inr (u, gone) ↦
                subst (Listed (id ∷ []) s)
                  (some-injective _ t (sym (step ∙ ap (push_after e.manifest) gone) ∙ k))
                  (Listed-push id s u e found (is_member_not id s.seen new) (
                    resolve_all-Listed (resolve entries f) (resolve-Listed f)
                      (wanted entries (required_by e.manifest)) (see s id) u gone))
          ]
    ]
  ]

  -- The list names different ids of the registry, all of them needed.
  pub record IsLean (id : String) (ms : List Manifest) : Type 0 where
    pub ids : List String
    pub under : StandUnder entries ids ms
    pub once : IsOnce ids
    pub needed : (i : String) → In i ids → Needs entries id i

  pub resolve-IsLean :
      (f : ℕ) (id : String) (t : Resolving)
      → resolve entries f id (record { seen = []; resolved = [] }) ≡ some t
      → IsLean id t.resolved
  resolve-IsLean f id t k =
      let start : Resolving = record { seen = []; resolved = [] } in
      let h = resolve-Listed f id start t k in
      record {
        ids = h.new;
        under = subst (StandUnder entries h.new) (sym h.grown) h.under;
        once = h.once;
        needed = λ i m.
            let (j, among, n) = h.needed i m in
            elim among [
              | inl here ↦ subst (λ x. Needs entries x i) here n
              | inr never ↦ absurd never
            ];
      }
