-- ===== src/Plugin/Uncycled.antt =====
-- The search for cycles (detectCircularDependencies of src/plugin/validation.ts) reports nothing where the
-- dependencies can be ranked.
use mathlib.Core.Option.{some-injective, none-ne-some}
use axionvera_sdk.Prelude.{
  ℕ, zero, suc, ◌<◌, ◌≡◌, refl, sym, ap, ◌∙◌, inl, inr, String, not, Option, none, some, List, [],
  ◌∷◌, In, In-keep_iff, arith, Bool-cases, Option-cases, str_eq, eq_iff, subst,
}
use axionvera_sdk.Prelude.Dict.{Dict}
use axionvera_sdk.Plugin.Types.{Config}
use axionvera_sdk.Plugin.Cycles.{
  is_member, targets, Search, enter, leave, close_cycle, visit, leave_after, dfs, search_roots,
}
use axionvera_sdk.Plugin.Members.{is_member_iff}

no_members : (ids : List String) → ((v : String) → ¬ In v ids) → ids ≡ []
no_members [] h = refl
no_members (i ∷ is) h = absurd (h i (inl refl))

-- Nothing was reported, and nothing is left on the stack.
record IsQuiet (s t : Search) : Type 0 where
  none_found : t.cycles ≡ []
  stack : (v : String) → In v t.stack → In v s.stack

module _ (plugins : Dict Config) (rank : String → ℕ)
    (falls : (id d : String) → In d (targets plugins id) → rank d < rank id) where
  abbrev Above : Search → String → Type 0
  Above s id = (v : String) → In v s.stack → rank id < rank v

  close_cycle_off : (s : Search) (id : String) → Above s id → close_cycle s id ≡ s
  unfolding close_cycle
  close_cycle_off s id above = elim (Bool-cases (is_member id s.stack)) [
    | inl on ↦ absurd (omega (arith, above id ((is_member_iff id s.stack).0 on)))
    | inr off ↦ rw off refl
  ]

  IsQuiet-trans : (s t u : Search) → IsQuiet s t → IsQuiet t u → IsQuiet s u
  IsQuiet-trans s t u h k = record {
    none_found = k.none_found;
    stack = λ v m. h.stack v (k.stack v m);
  }

  visit-IsQuiet :
      (go : String → Search → Option Search)
      → ((id : String) (s t : Search) → s.cycles ≡ [] → Above s id → go id s ≡ some t → IsQuiet s t)
      → (ids : List String) (s t : Search) → s.cycles ≡ []
      → ((id : String) → In id ids → Above s id)
      → visit go ids s ≡ some t
      → IsQuiet s t
  unfolding visit
  visit-IsQuiet go ih [] s t e h k =
      subst (IsQuiet s) (some-injective s t k) (record { none_found = e; stack = λ v m. m })
  visit-IsQuiet go ih (id ∷ ids) s t e h k = elim (Bool-cases (is_member id s.visited)) [
    | inl old ↦
        let step : visit go (id ∷ ids) s ≡ visit go ids (close_cycle s id) = rw (old, visit) refl in
        let same = close_cycle_off s id (h id (inl refl)) in
        visit-IsQuiet go ih ids s t e (λ i m. h i (inr m))
          (sym (ap (visit go ids) same) ∙ sym step ∙ k)
    | inr new ↦ elim (Option-cases (go id s)) [
      | inl stuck ↦
          let step : visit go (id ∷ ids) s ≡ none = rw (new, visit) (rw stuck refl) in
          absurd (none-ne-some t (sym step ∙ k))
      | inr (u, gone) ↦
          let step : visit go (id ∷ ids) s ≡ visit go ids u = rw (new, visit) (rw gone refl) in
          let first = ih id s u e (h id (inl refl)) gone in
          IsQuiet-trans s u t first (
            visit-IsQuiet go ih ids u t first.none_found
              (λ i m v on. h i (inr m) v (first.stack v on)) (sym step ∙ k))
    ]
  ]

  leave-IsQuiet : (id : String) (s t : Search) → IsQuiet (enter s id) t → IsQuiet s (leave t id)
  unfolding leave
  leave-IsQuiet id s t h = record {
    none_found = h.none_found;
    stack = λ v m.
        let (there, other) = (In-keep_iff (λ i. not (str_eq i id)) v t.stack).0 m in
        elim (h.stack v there) [
          | inl here ↦ ground (arith, other, eq_iff v id)
          | inr below ↦ below
        ];
  }

  dfs-IsQuiet :
      (f : ℕ) (id : String) (s t : Search)
      → s.cycles ≡ []
      → Above s id
      → dfs plugins f id s ≡ some t
      → IsQuiet s t
  unfolding dfs
  dfs-IsQuiet zero id s t e above k = absurd (none-ne-some t k)
  dfs-IsQuiet (suc f) id s t e above k =
      elim (Option-cases (visit (dfs plugins f) (targets plugins id) (enter s id))) [
        | inl stuck ↦ absurd (none-ne-some t (sym (ap (leave_after id) stuck) ∙ k))
        | inr (u, gone) ↦
            let left_then = some-injective (leave u id) t (sym (ap (leave_after id) gone) ∙ k) in
            subst (IsQuiet s) left_then (
              leave-IsQuiet id s u (
                visit-IsQuiet (dfs plugins f) (dfs-IsQuiet f) (targets plugins id) (enter s id) u e
                  (λ d m v on. elim on [
                    | inl here ↦ subst (λ x. rank d < rank x) (sym here) (falls id d m)
                    | inr below ↦ omega (arith, falls id d m, above v below)
                  ])
                  gone))
      ]

  pub search_roots-quiet :
      (f : ℕ) (ids : List String) (s t : Search)
      → s.cycles ≡ []
      → s.stack ≡ []
      → search_roots plugins f ids s ≡ some t
      → t.cycles ≡ []
  unfolding search_roots
  search_roots-quiet f [] s t e empty k = subst (λ x. x.cycles ≡ []) (some-injective s t k) e
  search_roots-quiet f (id ∷ ids) s t e empty k = elim (Bool-cases (is_member id s.visited)) [
    | inl old ↦
        let step : search_roots plugins f (id ∷ ids) s ≡ search_roots plugins f ids s =
          rw (old, search_roots) refl in
        search_roots-quiet f ids s t e empty (sym step ∙ k)
    | inr new ↦ elim (Option-cases (dfs plugins f id s)) [
      | inl stuck ↦
          let step : search_roots plugins f (id ∷ ids) s ≡ none =
            rw (new, search_roots) (rw stuck refl) in
          absurd (none-ne-some t (sym step ∙ k))
      | inr (u, gone) ↦
          let step : search_roots plugins f (id ∷ ids) s ≡ search_roots plugins f ids u =
            rw (new, search_roots) (rw gone refl) in
          let first = dfs-IsQuiet f id s u e (λ v on. absurd (subst (In v) empty on)) gone in
          search_roots-quiet f ids u t first.none_found
            (no_members u.stack (λ v m. subst (In v) empty (first.stack v m))) (sym step ∙ k)
    ]
  ]
