-- ===== src/Plugin/Traced.antt =====
-- The search for cycles (detectCircularDependencies of src/plugin/validation.ts): what it reports are cycles of
-- the dependencies.
use mathlib.Core.Option.{some-injective, none-ne-some}
use axionvera_sdk.Prelude.{
  ℕ, zero, suc, ◌≡◌, refl, sym, ap, ◌∙◌, inl, inr, String, not, Option, none, some, List, [], ◌∷◌,
  ◌++◌, In, In-keep_iff, In-append_cases, In-append_left, In-append_right, length, false, true, All,
  All-append, arith, Bool-cases, Option-cases, str_eq, eq_iff, subst,
}
use axionvera_sdk.Prelude.Dict.{Dict}
use axionvera_sdk.Plugin.Types.{Config}
use axionvera_sdk.Plugin.Cycles.{
  is_member, targets, keys, mentioned, start, Search, enter, leave, from_first, without_last,
  close_cycle, visit, leave_after, dfs, search_roots, cycles_found, detect_circular_dependencies,
}
use axionvera_sdk.Plugin.Members.{is_member_iff}

-- Each id of the list depends on the next one.
abbrev pub IsChain : Dict Config → List String → Type 0
IsChain plugins [] = Unit
IsChain plugins (x ∷ []) = Unit
IsChain plugins (x ∷ y ∷ ys) = In y (targets plugins x) × IsChain plugins (y ∷ ys)

-- The list leads from an id back to it, each id depending on the next one.
pub record IsCycle (plugins : Dict Config) (ids : List String) : Type 0 where
  pub from : String
  pub through : List String
  pub ends : ids ≡ from ∷ (through ++ from ∷ [])
  pub chain : IsChain plugins ids

from_first_miss :
    (id i : String) (is : List String)
    → str_eq i id ≡ false
    → from_first id (i ∷ is) ≡ from_first id is
unfolding from_first
from_first_miss id i is e = rw e refl

from_first_hit :
    (id i : String) (is : List String) → str_eq i id ≡ true → from_first id (i ∷ is) ≡ i ∷ is
unfolding from_first
from_first_hit id i is e = rw e refl

from_first_starts :
    (id : String) (is : List String)
    → In id is
    → (through : List String) × (from_first id is ≡ id ∷ through)
from_first_starts id [] m = absurd m
from_first_starts id (i ∷ is) m = elim (Bool-cases (str_eq i id)) [
  | inl e ↦ (is, from_first_hit id i is e ∙ ap (λ x. x ∷ is) ((eq_iff i id).0 e))
  | inr e ↦
      let later : In id is = ground (arith, m, e, eq_iff i id) in
      let (through, starts) = from_first_starts id is later in
      (through, from_first_miss id i is e ∙ starts)
]

without_last-snoc : (is : List String) (id : String) → without_last (is ++ id ∷ []) ≡ is
unfolding without_last
without_last-snoc [] id = refl
without_last-snoc (i ∷ []) id = refl
without_last-snoc (i ∷ j ∷ is) id = ap (λ xs. i ∷ xs) (without_last-snoc (j ∷ is) id)

module _ (plugins : Dict Config) where
  IsChain-tail : (i : String) (is : List String) → IsChain plugins (i ∷ is) → IsChain plugins is
  IsChain-tail i [] c = tt
  IsChain-tail i (j ∷ is) (_, c) = c

  IsChain-snoc :
      (is : List String) (id d : String)
      → IsChain plugins (is ++ id ∷ [])
      → In d (targets plugins id)
      → IsChain plugins ((is ++ id ∷ []) ++ d ∷ [])
  IsChain-snoc [] id d c m = (m, tt)
  IsChain-snoc (i ∷ []) id d (first, c) m = (first, (m, tt))
  IsChain-snoc (i ∷ j ∷ is) id d (first, c) m = (first, IsChain-snoc (j ∷ is) id d c m)

  IsChain-from_first :
      (id : String) (is : List String)
      → IsChain plugins (is ++ id ∷ [])
      → IsChain plugins (from_first id is ++ id ∷ [])
  unfolding from_first
  IsChain-from_first id [] c = c
  IsChain-from_first id (i ∷ is) c = elim (Bool-cases (str_eq i id)) [
    | inl e ↦ subst (λ xs. IsChain plugins (xs ++ id ∷ [])) (sym (from_first_hit id i is e)) c
    | inr e ↦
        subst (λ xs. IsChain plugins (xs ++ id ∷ [])) (sym (from_first_miss id i is e))
          (IsChain-from_first id is (IsChain-tail i (is ++ id ∷ []) c))
  ]

  from_first-IsCycle :
      (id : String) (is : List String)
      → In id is
      → IsChain plugins (is ++ id ∷ [])
      → IsCycle plugins (from_first id is ++ id ∷ [])
  from_first-IsCycle id is m c =
      let (through, starts) = from_first_starts id is m in
      record {
        from = id;
        through = through;
        ends = ap (λ xs. xs ++ id ∷ []) starts;
        chain = IsChain-from_first id is c;
      }

  -- What stands on the stack stands on the path, and every list that was reported is a cycle.
  record IsTraced (s : Search) : Type 0 where
    on_path : (i : String) → In i s.stack → In i s.path
    real : All (IsCycle plugins) s.cycles

  -- The search came back to the path where it started.
  record Returns (s t : Search) : Type 0 where
    traced : IsTraced t
    path : t.path ≡ s.path

  close_cycle-Returns :
      (s : Search) (id : String)
      → IsTraced s
      → IsChain plugins (s.path ++ id ∷ [])
      → Returns s (close_cycle s id)
  unfolding close_cycle
  close_cycle-Returns s id h c = elim (Bool-cases (is_member id s.stack)) [
    | inr off ↦ rw off (record { traced = h; path = refl })
    | inl on ↦ rw on (record {
      traced = record {
        on_path = h.on_path;
        real =
            All-append (IsCycle plugins) s.cycles _ h.real
              (from_first-IsCycle id s.path (h.on_path id ((is_member_iff id s.stack).0 on)) c, tt);
      };
      path = refl;
    })
  ]

  Returns-trans : (s t u : Search) → Returns s t → Returns t u → Returns s u
  Returns-trans s t u h k = record { traced = k.traced; path = k.path ∙ h.path }

  -- What a search from an id does.
  abbrev Traces : (String → Search → Option Search) → Type 0
  Traces go =
      (id : String) (s t : Search)
      → IsTraced s
      → IsChain plugins (s.path ++ id ∷ [])
      → go id s ≡ some t
      → Returns s t

  visit-Returns :
      (go : String → Search → Option Search)
      → Traces go
      → (ids : List String) (s t : Search) → IsTraced s
      → ((id : String) → In id ids → IsChain plugins (s.path ++ id ∷ []))
      → visit go ids s ≡ some t
      → Returns s t
  unfolding visit
  visit-Returns go ih [] s t h c k =
      subst (Returns s) (some-injective s t k) (record { traced = h; path = refl })
  visit-Returns go ih (id ∷ ids) s t h c k =
      let on = λ (u : Search) (first : Returns s u) (rest : visit go ids u ≡ some t).
        Returns-trans s u t first (
          visit-Returns go ih ids u t first.traced
            (λ i m. subst (λ p. IsChain plugins (p ++ i ∷ [])) (sym first.path) (c i (inr m)))
            rest) in
      elim (Bool-cases (is_member id s.visited)) [
        | inl old ↦
            let step : visit go (id ∷ ids) s ≡ visit go ids (close_cycle s id) =
              rw (old, visit) refl in
            on (close_cycle s id) (close_cycle-Returns s id h (c id (inl refl))) (sym step ∙ k)
        | inr new ↦ elim (Option-cases (go id s)) [
          | inl stuck ↦
              let step : visit go (id ∷ ids) s ≡ none = rw (new, visit) (rw stuck refl) in
              absurd (none-ne-some t (sym step ∙ k))
          | inr (u, gone) ↦
              let step : visit go (id ∷ ids) s ≡ visit go ids u = rw (new, visit) (rw gone refl) in
              on u (ih id s u h (c id (inl refl)) gone) (sym step ∙ k)
        ]
      ]

  enter-IsTraced : (s : Search) (id : String) → IsTraced s → IsTraced (enter s id)
  enter-IsTraced s id h = record {
    on_path = λ i m. elim m [
      | inl here ↦ In-append_right i s.path (id ∷ []) (inl here)
      | inr below ↦ In-append_left i s.path (id ∷ []) (h.on_path i below)
    ];
    real = h.real;
  }

  leave-Returns : (s t : Search) (id : String) → Returns (enter s id) t → Returns s (leave t id)
  unfolding leave
  leave-Returns s t id h =
      let back : without_last t.path ≡ s.path =
        ap without_last h.path ∙ without_last-snoc s.path id in
      record {
        traced = record {
          on_path = λ i m.
              let (there, other) = (In-keep_iff (λ x. not (str_eq x id)) i t.stack).0 m in
              elim (In-append_cases i s.path (id ∷ [])
                (subst (In i) h.path (h.traced.on_path i there))) [
                  | inl before ↦ subst (In i) (sym back) before
                  | inr last ↦ ground (arith, other, last, eq_iff i id)
                ];
          real = h.traced.real;
        };
        path = back;
      }

  dfs-Returns : (f : ℕ) → Traces (dfs plugins f)
  unfolding dfs
  dfs-Returns zero id s t h c k = absurd (none-ne-some t k)
  dfs-Returns (suc f) id s t h c k =
      elim (Option-cases (visit (dfs plugins f) (targets plugins id) (enter s id))) [
        | inl stuck ↦ absurd (none-ne-some t (sym (ap (leave_after id) stuck) ∙ k))
        | inr (u, gone) ↦
            subst (Returns s) (some-injective (leave u id) t (sym (ap (leave_after id) gone) ∙ k)) (
              leave-Returns s u id (
                visit-Returns (dfs plugins f) (dfs-Returns f) (targets plugins id) (enter s id) u
                  (enter-IsTraced s id h) (λ d m. IsChain-snoc s.path id d c m) gone))
      ]

  search_roots-IsTraced :
      (f : ℕ) (ids : List String) (s t : Search)
      → IsTraced s
      → s.path ≡ []
      → search_roots plugins f ids s ≡ some t
      → IsTraced t
  unfolding search_roots
  search_roots-IsTraced f [] s t h root k = subst IsTraced (some-injective s t k) h
  search_roots-IsTraced f (id ∷ ids) s t h root k = elim (Bool-cases (is_member id s.visited)) [
    | inl old ↦
        let step : search_roots plugins f (id ∷ ids) s ≡ search_roots plugins f ids s =
          rw (old, search_roots) refl in
        search_roots-IsTraced f ids s t h root (sym step ∙ k)
    | inr new ↦ elim (Option-cases (dfs plugins f id s)) [
      | inl stuck ↦
          let step : search_roots plugins f (id ∷ ids) s ≡ none =
            rw (new, search_roots) (rw stuck refl) in
          absurd (none-ne-some t (sym step ∙ k))
      | inr (u, gone) ↦
          let step : search_roots plugins f (id ∷ ids) s ≡ search_roots plugins f ids u =
            rw (new, search_roots) (rw gone refl) in
          let first =
            dfs-Returns f id s u h (subst (λ p. IsChain plugins (p ++ id ∷ [])) (sym root) tt)
              gone in
          search_roots-IsTraced f ids u t first.traced (first.path ∙ root) (sym step ∙ k)
    ]
  ]

  -- Every list that the search reports is a cycle.
  pub detect-IsCycle :
      (cs : List (List String))
      → detect_circular_dependencies plugins ≡ some cs
      → All (IsCycle plugins) cs
  unfolding detect_circular_dependencies
  detect-IsCycle cs h =
      elim (Option-cases
        (search_roots plugins (suc (length (mentioned plugins))) (keys plugins) start)) [
          | inl stuck ↦ absurd (none-ne-some cs (sym (ap cycles_found stuck) ∙ h))
          | inr (t, gone) ↦
              let end =
                search_roots-IsTraced (suc (length (mentioned plugins))) (keys plugins) start t
                  (record { on_path = λ i m. m; real = tt }) refl gone in
              subst (All (IsCycle plugins))
                (some-injective t.cycles cs (sym (ap cycles_found gone) ∙ h)) end.real
        ]
