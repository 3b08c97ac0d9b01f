-- ===== src/Plugin/Topology.antt =====
-- topologicalSort of src/plugin/validation.ts: what it returns, and when it throws.
use mathlib.Core.Option.{some-injective, none-ne-some}
use axionvera_sdk.Prelude.{
  ℕ, suc, ◌≤◌, ◌<◌, ◌≡◌, refl, sym, ap, ◌∙◌, ◌↔◌, ◌⊎◌, inl, inr, String, some, List, [], ◌∷◌, In,
  length, arith, All, Bool-cases, List-cases, cons-ne-nil, Option-cases, ok, err, str_eq, eq_iff,
  eq_refl, none_of, subst, if◌then◌else◌,
}
use axionvera_sdk.Prelude.Dict.{Dict, get, has}
use axionvera_sdk.Plugin.Types.{Config, circular}
use axionvera_sdk.Plugin.Cycles.{
  targets, targets_of, keys, mentioned, start, search_roots, cycles_found,
  detect_circular_dependencies,
}
use axionvera_sdk.Plugin.Order.{sorted_ids, sort_from, topological_sort}
use axionvera_sdk.Plugin.Explored.{Ordered}
use axionvera_sdk.Plugin.Searches.{detect_circular_dependencies-returns}
use axionvera_sdk.Plugin.Placed.{Placed, has-keys}
use axionvera_sdk.Plugin.Sorted.{visit_all-keys}
use axionvera_sdk.Plugin.Uncycled.{search_roots-quiet}
use axionvera_sdk.Plugin.Traced.{IsCycle, detect-IsCycle}

-- The dependencies can be ranked: no chain of them leads from a plugin back to it.
pub record IsAcyclic (plugins : Dict Config) : Type 0 where
  pub rank : String → ℕ
  pub falls : (id d : String) → In d (targets plugins id) → rank d < rank id

-- The place of an id in a list, from its end.
abbrev place : List String → String → ℕ
place [] id = 0
place (i ∷ is) id = if str_eq i id then suc (length is) else place is id

place-le : (ids : List String) (id : String) → place ids id ≤ length ids
place-le [] id = omega arith
place-le (i ∷ is) id = ground (arith, place-le is id)

Ordered-closed :
    (plugins : Dict Config) (ids : List String)
    → Ordered plugins ids
    → (id d : String) → In id ids
    → In d (targets plugins id)
    → In d ids
Ordered-closed plugins [] o id d m e = absurd m
Ordered-closed plugins (i ∷ is) (before, once, o) id d (inl here) e =
    inr (before d (subst (λ x. In d (targets plugins x)) here e))
Ordered-closed plugins (i ∷ is) (before, once, o) id d (inr there) e =
    inr (Ordered-closed plugins is o id d there e)

place_other :
    (i d : String) (is : List String) → ¬ In i is → In d is → place (i ∷ is) d ≡ place is d
place_other i d is once m = elim (Bool-cases (str_eq i d)) [
  | inl e ↦ absurd (once (subst (λ x. In x is) (sym ((eq_iff i d).0 e)) m))
  | inr e ↦ rw e refl
]

place_falls :
    (plugins : Dict Config) (ids : List String)
    → Ordered plugins ids
    → (id d : String) → In id ids
    → In d (targets plugins id)
    → place ids d < place ids id
place_falls plugins [] o id d m e = absurd m
place_falls plugins (i ∷ is) (before, once, o) id d (inl here) e =
    let among = before d (subst (λ x. In d (targets plugins x)) here e) in
    let first : place (i ∷ is) id ≡ suc (length is) = rw (here, eq_refl i) refl in
    omega (arith, place_other i d is once among, place-le is d, first)
place_falls plugins (i ∷ is) (before, once, o) id d (inr there) e =
    let among = Ordered-closed plugins is o id d there e in
    omega (
      arith,
      place_other i d is once among,
      place_other i id is once there,
      place_falls plugins is o id d there e,
    )

targets-keys :
    (plugins : Dict Config) (id d : String) → In d (targets plugins id) → In id (keys plugins)
unfolding targets
targets-keys plugins id d m = elim (Bool-cases (has id plugins)) [
  | inl there ↦ has-keys plugins id there
  | inr gone ↦ absurd (subst (λ o. In d (targets_of o)) (none_of (get id plugins) gone) m)
]

Ordered-IsAcyclic :
    (plugins : Dict Config) (done : List String)
    → Ordered plugins done
    → ((id : String) → In id (keys plugins) → In id done)
    → IsAcyclic plugins
Ordered-IsAcyclic plugins done o all_done = record {
  rank = place done;
  falls = λ id d m. place_falls plugins done o id d (all_done id (targets-keys plugins id d m)) m;
}

detect-quiet :
    (plugins : Dict Config) (cs : List (List String))
    → IsAcyclic plugins
    → detect_circular_dependencies plugins ≡ some cs
    → cs ≡ []
unfolding detect_circular_dependencies
detect-quiet plugins cs a h =
    elim (Option-cases
      (search_roots plugins (suc (length (mentioned plugins))) (keys plugins) start)) [
        | inl stuck ↦ absurd (none-ne-some cs (sym (ap cycles_found stuck) ∙ h))
        | inr (t, gone) ↦
            sym (some-injective t.cycles cs (sym (ap cycles_found gone) ∙ h))
            ∙ search_roots-quiet plugins a.rank a.falls (suc (length (mentioned plugins)))
                (keys plugins) start t refl refl gone
      ]

-- A list of all the plugins, each once, in which every plugin stands after those of its dependencies that are
-- plugins.
pub record IsTopological (plugins : Dict Config) (ids : List String) : Type 0 where
  pub placed : Placed plugins [] ids
  pub all_plugins : (id : String) → In id ids ↔ In id (keys plugins)

sort_from-ok :
    (plugins : Dict Config)
    → IsAcyclic plugins
    → (ids : List String) × (sort_from plugins ≡ some (ok ids)) × IsTopological plugins ids
unfolding sort_from
sort_from-ok plugins a =
    let (r, done, placed, all) = visit_all-keys plugins a.rank a.falls in
    (r.sorted, ap sorted_ids done, record { placed = placed; all_plugins = all })

-- It returned all the plugins, and they can be ranked.
abbrev pub Sorts : Dict Config → Type 0
Sorts plugins =
    (ids : List String) × (topological_sort plugins ≡ some (ok ids))
    × IsTopological plugins ids
    × IsAcyclic plugins

-- It threw, with one or more lists, each of them a cycle, and they cannot be ranked.
abbrev pub Refuses : Dict Config → Type 0
Refuses plugins =
    (c : List String) × (cs : List (List String)) × (topological_sort plugins
      ≡ some (err (circular (c ∷ cs))))
    × All (IsCycle plugins) (c ∷ cs)
    × (¬ IsAcyclic plugins)

-- topologicalSort always returns or throws. It returns exactly where the dependencies can be ranked, so that no
-- chain of them leads back to its start, and then all the plugins, each once and after its dependencies. Where it
-- throws, it reports at least one list, and each list that it reports leads from an id back to it, every id
-- depending on the next one.
pub topological_sort_cases : (plugins : Dict Config) → Sorts plugins ⊎ Refuses plugins
unfolding topological_sort
topological_sort_cases plugins =
    let (found, returned, ordered) = detect_circular_dependencies-returns plugins in
    elim (List-cases found) [
      | inl none_found ↦
          let (done, o, all_done) = ordered none_found in
          let a = Ordered-IsAcyclic plugins done o all_done in
          let (ids, sorted, t) = sort_from-ok plugins a in
          inl (ids, rw (returned, topological_sort) (rw none_found sorted), t, a)
      | inr (c, cs, some_found) ↦ inr (
        c,
        cs,
        rw (returned, topological_sort) (rw some_found refl),
        subst (All (IsCycle plugins)) some_found (detect-IsCycle plugins found returned),
        λ a. cons-ne-nil c cs (sym some_found ∙ detect-quiet plugins found a returned),
      )
    ]
