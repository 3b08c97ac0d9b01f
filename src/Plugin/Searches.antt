-- ===== src/Plugin/Searches.antt =====
-- The search for cycles (detectCircularDependencies of src/plugin/validation.ts) from its roots: the fuel is
-- enough, and where it reports nothing the plugins have an order.
use axionvera_sdk.Prelude.{
  ℕ, zero, suc, ◌≤◌, ◌<◌, ◌≡◌, refl, sym, ap, ◌∙◌, inl, inr, String, Bool, true, false, Option,
  some, List, [], ◌∷◌, In, In-append_left, In-append_right, length, arith, Bool-cases, str_eq,
  subst,
}
use axionvera_sdk.Prelude.Dict.{Dict, get}
use axionvera_sdk.Plugin.Types.{Config}
use axionvera_sdk.Plugin.Cycles.{
  is_member, targets, targets_of, mentioned, keys, Search, start, enter, close_cycle, visit, dfs,
  search_roots, cycles_found, detect_circular_dependencies,
}
use axionvera_sdk.Plugin.Members.{
  is_member_iff, is_member_not, left, left-lt, left-le, left-le_length,
}
use axionvera_sdk.Plugin.Explored.{
  Ordered, Explored, visit_seen, visit_new, Explored-nil, Explored-new, Explored-seen,
  Explored-leave, Explored-old, close_cycle_same,
}

abbrev pub seen : Search → String → Bool
seen s id = is_member id s.visited

-- How many of the ids that the search can meet are not visited.
abbrev pub unseen : Dict Config → Search → ℕ
unseen plugins s = left (seen s) (mentioned plugins)

targets-mentioned :
    (plugins : Dict Config) (id d : String) → In d (targets plugins id) → In d (mentioned plugins)
unfolding targets get
targets-mentioned [] id d h = absurd h
targets-mentioned ((i, c) ∷ more) id d h = elim (Bool-cases (str_eq i id)) [
  | inl e ↦
      let hit : get id ((i, c) ∷ more) ≡ some c = rw e refl in
      inr (In-append_left d _ _ (subst (λ o. In d (targets_of o)) hit h))
  | inr e ↦
      let miss : get id ((i, c) ∷ more) ≡ get id more = rw e refl in
      inr (
        In-append_right d _ _
          (targets-mentioned more id d (subst (λ o. In d (targets_of o)) miss h)))
]

seen-le :
    (plugins : Dict Config) (s t : Search)
    → ((id : String) → In id s.visited → In id t.visited)
    → unseen plugins t ≤ unseen plugins s
seen-le plugins s t grows =
    left-le (seen s) (seen t) (mentioned plugins)
      (λ i e. (is_member_iff i t.visited).1 (grows i ((is_member_iff i s.visited).0 e)))

enter-unseen :
    (plugins : Dict Config) (s : Search) (id : String)
    → In id (mentioned plugins)
    → is_member id s.visited ≡ false
    → unseen plugins (enter s id) < unseen plugins s
enter-unseen plugins s id known new =
    left-lt (seen s) (seen (enter s id)) id (mentioned plugins) (λ i e. ground arith) known new
      ((is_member_iff id (id ∷ s.visited)).1 (inl refl))

-- The stack is visited.
abbrev OnStack : Search → Type 0
OnStack s = (i : String) → In i s.stack → In i s.visited

module _ (plugins : Dict Config) where
  OnStack-after :
      (ids : List String) (s : Search) (r : Option Search) (h : Explored plugins ids s r)
      → OnStack s
      → OnStack h.after
  OnStack-after ids s r h on i m = h.grows i (on i (subst (In i) h.same_stack m))

  visit-Explored :
      (go : String → Search → Option Search) (f : ℕ) (ids : List String)
      → ((id : String) (s : Search)
          → In id (mentioned plugins)
          → is_member id s.visited ≡ false
          → unseen plugins s ≤ f
          → OnStack s
          → Explored plugins (id ∷ []) s (go id s))
      → (s : Search) → ((id : String) → In id ids → In id (mentioned plugins))
      → unseen plugins s ≤ f
      → OnStack s
      → Explored plugins ids s (visit go ids s)
  unfolding visit
  visit-Explored go f [] ih s known le on = Explored-nil plugins s
  visit-Explored go f (id ∷ ids) ih s known le on = elim (Bool-cases (is_member id s.visited)) [
    | inl old ↦
        let t = close_cycle s id in
        let (visited, stack) = close_cycle_same plugins s id in
        subst (Explored plugins (id ∷ ids) s) (sym (visit_seen plugins go id ids s old)) (
          Explored-seen plugins id ids s _ ((is_member_iff id s.visited).0 old) (
            visit-Explored go f ids ih t (λ i m. known i (inr m))
              (subst (λ v. left (λ i. is_member i v) (mentioned plugins) ≤ f) (sym visited) le)
              (λ i m. subst (In i) (sym visited) (on i (subst (In i) stack m)))))
    | inr new ↦
        let h = ih id s (known id (inl refl)) new le on in
        subst (Explored plugins (id ∷ ids) s)
          (sym (visit_new plugins go id ids s h.after new h.done))
          (Explored-new plugins id ids s _ h _ (
            visit-Explored go f ids ih h.after (λ i m. known i (inr m))
              (omega (arith, seen-le plugins s h.after h.grows))
              (OnStack-after (id ∷ []) s _ h on)))
  ]

  dfs-Explored :
      (f : ℕ) (id : String) (s : Search)
      → In id (mentioned plugins)
      → is_member id s.visited ≡ false
      → unseen plugins s ≤ f
      → OnStack s
      → Explored plugins (id ∷ []) s (dfs plugins f id s)
  unfolding dfs
  dfs-Explored zero id s known new le on =
      absurd (omega (arith, enter-unseen plugins s id known new))
  dfs-Explored (suc f) id s known new le on =
      Explored-leave plugins id s _ (is_member_not id s.visited new) on (
        visit-Explored (dfs plugins f) f (targets plugins id) (dfs-Explored f) (enter s id)
          (λ d m. targets-mentioned plugins id d m)
          (omega (arith, enter-unseen plugins s id known new))
          (λ i m. elim m [ inl here ↦ inl here | inr below ↦ inr (on i below) ]))

  roots_seen :
      (f : ℕ) (id : String) (ids : List String) (s : Search)
      → is_member id s.visited ≡ true
      → search_roots plugins f (id ∷ ids) s ≡ search_roots plugins f ids s
  unfolding search_roots
  roots_seen f id ids s h = rw (h, search_roots) refl

  roots_new :
      (f : ℕ) (id : String) (ids : List String) (s t : Search)
      → is_member id s.visited ≡ false
      → dfs plugins f id s ≡ some t
      → search_roots plugins f (id ∷ ids) s ≡ search_roots plugins f ids t
  unfolding search_roots
  roots_new f id ids s t h e = rw (h, search_roots) (rw e refl)

  pub search_roots-Explored :
      (f : ℕ) (ids : List String) (s : Search)
      → ((id : String) → In id ids → In id (mentioned plugins))
      → unseen plugins s ≤ f
      → s.stack ≡ []
      → Explored plugins ids s (search_roots plugins f ids s)
  unfolding search_roots
  search_roots-Explored f [] s known le empty = Explored-nil plugins s
  search_roots-Explored f (id ∷ ids) s known le empty = elim (Bool-cases (is_member id s.visited)) [
    | inl old ↦ subst (Explored plugins (id ∷ ids) s) (sym (roots_seen f id ids s old)) (
        Explored-old plugins id ids s _ ((is_member_iff id s.visited).0 old)
          (ap (is_member id) empty)
          (search_roots-Explored f ids s (λ i m. known i (inr m)) le empty))
    | inr new ↦
        let h =
          dfs-Explored f id s (known id (inl refl)) new le (λ i m. absurd (subst (In i) empty m)) in
        subst (Explored plugins (id ∷ ids) s) (sym (roots_new f id ids s h.after new h.done)) (
          Explored-new plugins id ids s _ h _ (
            search_roots-Explored f ids h.after (λ i m. known i (inr m))
              (omega (arith, seen-le plugins s h.after h.grows)) (h.same_stack ∙ empty)))
  ]

keys-mentioned :
    (plugins : Dict Config) (id : String) → In id (keys plugins) → In id (mentioned plugins)
keys-mentioned [] id m = absurd m
keys-mentioned ((i, c) ∷ more) id (inl here) = inl here
keys-mentioned ((i, c) ∷ more) id (inr there) =
    inr (In-append_right id _ _ (keys-mentioned more id there))

-- The search for cycles always returns. Where it reports none, the plugins stand in a list, each once and after
-- all that it depends on.
pub detect_circular_dependencies-returns :
    (plugins : Dict Config)
    → (cs : List (List String)) × (detect_circular_dependencies plugins ≡ some cs)
      × (cs ≡ []
          → (done : List String) × Ordered plugins done
            × ((id : String) → In id (keys plugins) → In id done))
unfolding detect_circular_dependencies
detect_circular_dependencies-returns plugins =
    let h =
      search_roots-Explored plugins (suc (length (mentioned plugins))) (keys plugins) start
        (keys-mentioned plugins) (omega (arith, left-le_length (seen start) (mentioned plugins)))
        refl in
    (
      h.after.cycles,
      ap cycles_found h.done,
      λ e.
          (let f =
              h.finish e [] (record {
                covers = λ i m. absurd m;
                done_visited = λ i m. absurd m;
                ordered = tt;
              }) in
            (f.after, f.split.ordered, f.reached)),
    )
