-- ===== src/Plugin/Sorted.antt =====
-- The second search of topologicalSort (src/plugin/validation.ts), over plugins that no cycle of dependencies
-- goes through: each dependency of a plugin has a smaller rank.
use axionvera_sdk.Prelude.{
  ℕ, zero, suc, ◌≤◌, ◌<◌, ◌≡◌, refl, sym, ap, ◌↔◌, inl, inr, String, true, false, Option, some,
  List, [], ◌∷◌, In, In-keep_iff, length, arith, Bool-cases, subst,
}
use axionvera_sdk.Prelude.Dict.{Dict, has}
use axionvera_sdk.Plugin.Types.{Config}
use axionvera_sdk.Plugin.Cycles.{is_member, targets, keys}
use axionvera_sdk.Plugin.Order.{Sorting, unsorted, begin, visit_all, finish_after, known, visit}
use axionvera_sdk.Plugin.Members.{
  is_member_iff, is_member_not, left, left-lt, left-le, left-le_length,
}
use axionvera_sdk.Plugin.Placed.{
  Placed, begun, has-keys, Visited, Visited-nil, Visited-append, Visited-old, Visited-finish,
}

length-keys : (plugins : Dict Config) → length (keys plugins) ≡ length plugins
length-keys [] = refl
length-keys (e ∷ more) = ap suc (length-keys more)

module _ (plugins : Dict Config) where
  begun-after :
      (ids : List String) (s : Sorting) (r : Option Sorting) (h : Visited plugins ids s r)
      → left (begun h.after) (keys plugins) ≤ left (begun s) (keys plugins)
  begun-after ids s r h = left-le (begun s) (begun h.after) (keys plugins) (λ i e. ground (
    arith,
    is_member_iff i s.visited,
    is_member_iff i h.after.visited,
    h.grows i,
    ap (is_member i) h.same_visiting,
  ))

  begun-begin :
      (s : Sorting) (id : String)
      → In id (keys plugins)
      → is_member id s.visited ≡ false
      → is_member id s.visiting ≡ false
      → left (begun (begin s id)) (keys plugins) < left (begun s) (keys plugins)
  begun-begin s id key new off =
      left-lt (begun s) (begun (begin s id)) id (keys plugins) (λ i e. ground arith) key
        (ground arith) (ground (arith, (is_member_iff id (id ∷ s.visiting)).1 (inl refl)))

  visit_old :
      (f : ℕ) (id : String) (s : Sorting)
      → is_member id s.visited ≡ true
      → visit plugins (suc f) id s ≡ some s
  unfolding visit
  visit_old f id s e = rw (e, visit) refl

  visit_new :
      (f : ℕ) (id : String) (s : Sorting)
      → is_member id s.visited ≡ false
      → is_member id s.visiting ≡ false
      → visit plugins (suc f) id s
        ≡ finish_after id
            (visit_all (visit plugins f) (known plugins (targets plugins id)) (begin s id))
  unfolding visit
  visit_new f id s e k = rw (e, visit) (rw k refl)

  visit_all_step :
      (go : String → Sorting → Option Sorting) (id : String) (ids : List String) (s t : Sorting)
      → go id s ≡ some t
      → visit_all go (id ∷ ids) s ≡ visit_all go ids t
  unfolding visit_all
  visit_all_step go id ids s t e = rw (e, visit_all) refl

  In-known :
      (id : String) (ids : List String)
      → In id (known plugins ids)
      → In id ids × In id (keys plugins)
  unfolding known
  In-known id ids h =
      let (there, key) = (In-keep_iff (λ i. has i plugins) id ids).0 h in
      (there, has-keys plugins id key)

  module _ (rank : String → ℕ)
      (falls : (id d : String) → In d (targets plugins id) → rank d < rank id) where
    -- What is being visited has a greater rank than what is to be visited.
    abbrev Above : Sorting → String → Type 0
    Above s id = (v : String) → In v s.visiting → rank id < rank v

    visit_all-Visited :
        (go : String → Sorting → Option Sorting) (f : ℕ) (ids : List String)
        → ((id : String) (s : Sorting)
            → In id (keys plugins)
            → Above s id
            → left (begun s) (keys plugins) < f
            → Visited plugins (id ∷ []) s (go id s))
        → (s : Sorting) → ((id : String) → In id ids → In id (keys plugins) × Above s id)
        → left (begun s) (keys plugins) < f
        → Visited plugins ids s (visit_all go ids s)
    unfolding visit_all
    visit_all-Visited go f [] ih s h le = Visited-nil plugins s
    visit_all-Visited go f (id ∷ ids) ih s h le =
        let (key, above) = h id (inl refl) in
        let first = ih id s key above le in
        subst (Visited plugins (id ∷ ids) s)
          (sym (visit_all_step go id ids s first.after first.done))
          (Visited-append plugins id ids s _ first _ (
            visit_all-Visited go f ids ih first.after
              (λ i m.
                ((h i (inr m)).0, λ v on. (h i (inr m)).1 v (subst (In v) first.same_visiting on)))
              (omega (arith, begun-after (id ∷ []) s _ first))))

    pub visit-Visited :
        (f : ℕ) (id : String) (s : Sorting)
        → In id (keys plugins)
        → Above s id
        → left (begun s) (keys plugins) < f
        → Visited plugins (id ∷ []) s (visit plugins f id s)
    visit-Visited zero id s key above le = absurd (omega arith)
    visit-Visited (suc f) id s key above le = elim (Bool-cases (is_member id s.visited)) [
      | inl old ↦
          subst (Visited plugins (id ∷ []) s) (sym (visit_old f id s old))
            (Visited-old plugins id s ((is_member_iff id s.visited).0 old))
      | inr new ↦ elim (Bool-cases (is_member id s.visiting)) [
        | inl on ↦ absurd (omega (arith, above id ((is_member_iff id s.visiting).0 on)))
        | inr off ↦ subst (Visited plugins (id ∷ []) s) (sym (visit_new f id s new off)) (
            Visited-finish plugins id s _ key (is_member_not id s.visited new)
              (is_member_not id s.visiting off)
              (visit_all-Visited (visit plugins f) f (known plugins (targets plugins id))
                (visit-Visited f) (begin s id)
                (λ d m.
                  let (edge, there) = In-known d (targets plugins id) m in
                  (
                    there,
                    λ v w. elim w [
                      | inl here ↦ subst (λ x. rank d < rank x) (sym here) (falls id d edge)
                      | inr under ↦ omega (arith, falls id d edge, above v under)
                    ],
                  ))
                (omega (arith, begun-begin s id key new off))))
      ]
    ]

    -- Every plugin once, and after those that it depends on.
    pub visit_all-keys :
        (r : Sorting) × (visit_all (visit plugins (suc (length plugins))) (keys plugins) unsorted
          ≡ some r)
        × Placed plugins [] r.sorted
        × ((id : String) → In id r.sorted ↔ In id (keys plugins))
    visit_all-keys =
        let f = suc (length plugins) in
        let h =
          visit_all-Visited (visit plugins f) f (keys plugins) (visit-Visited f) unsorted
            (λ id m. (m, λ v never. absurd never))
            (omega (arith, left-le_length (begun unsorted) (keys plugins), length-keys plugins)) in
        let w = h.sorting (record {
          placed = tt;
          sorted_visited = λ id never. never;
          visited_sorted = λ id never. never;
        }) in
        (
          h.after,
          h.done,
          w.placed,
          λ id. (
            (λ m. elim (h.known_only id (w.sorted_visited id m)) [
              | inl never ↦ absurd never
              | inr key ↦ key
            ]),
            (λ m. w.visited_sorted id (h.reached id m)),
          ),
        )
