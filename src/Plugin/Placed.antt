-- ===== src/Plugin/Placed.antt =====
-- What the second search of topologicalSort (src/plugin/validation.ts) has sorted.
use axionvera_sdk.Prelude.{
  ◌≡◌, refl, sym, ap, ◌∙◌, ◌⊎◌, inl, inr, String, Bool, true, not, ◌||◌, Option, some, List, [],
  ◌∷◌, ◌++◌, In, In-append_left, In-append_cases, In-append_right, keep, arith, Bool-cases, str_eq,
  eq_iff, subst,
}
use axionvera_sdk.Prelude.Dict.{Dict, has, get}
use axionvera_sdk.Plugin.Types.{Config}
use axionvera_sdk.Plugin.Cycles.{is_member, targets, keys}
use axionvera_sdk.Plugin.Order.{Sorting, begin, finish, finish_after, known}
use axionvera_sdk.Plugin.Members.{keep-new}

-- Each id once, and after the plugins that it depends on; `done` has the ids before.
abbrev pub Placed : Dict Config → List String → List String → Type 0
Placed plugins done [] = Unit
Placed plugins done (id ∷ ids) =
    ((d : String) → In d (known plugins (targets plugins id)) → In d done)
    × (¬ In id done)
    × Placed plugins (id ∷ done) ids

Placed-append :
    (plugins : Dict Config) (done ids : List String) (id : String)
    → Placed plugins done ids
    → ((d : String) → In d (known plugins (targets plugins id)) → In d done ⊎ In d ids)
    → ¬ In id done
    → ¬ In id ids
    → Placed plugins done (ids ++ id ∷ [])
Placed-append plugins done [] id h before new other =
    ((λ d m. elim (before d m) [ inl there ↦ there | inr never ↦ absurd never ]), new, tt)
Placed-append plugins done (i ∷ is) id (first, once, h) before new other = (
  first,
  once,
  Placed-append plugins (i ∷ done) is id h
      (λ d m. elim (before d m) [
        | inl there ↦ inl (inr there)
        | inr among ↦ elim among [ inl here ↦ inl (inl here) | inr there ↦ inr there ]
      ])
      (λ m. elim m [ inl here ↦ other (inl here) | inr there ↦ new there ]) (λ m. other (inr m)),
)

-- An id that a visit was begun for.
abbrev pub begun : Sorting → String → Bool
begun s id = is_member id s.visited || is_member id s.visiting

pub has-keys : (plugins : Dict Config) (id : String) → has id plugins ≡ true → In id (keys plugins)
unfolding get
has-keys [] id h = cc
has-keys ((i, c) ∷ more) id h = elim (Bool-cases (str_eq i id)) [
  | inl e ↦ inl (sym ((eq_iff i id).0 e))
  | inr e ↦ inr (has-keys more id (ground arith))
]

module _ (plugins : Dict Config) where
  pub record IsSorting (s : Sorting) : Type 0 where
    pub placed : Placed plugins [] s.sorted
    pub sorted_visited : (id : String) → In id s.sorted → In id s.visited
    pub visited_sorted : (id : String) → In id s.visited → In id s.sorted

  pub record Visited (ids : List String) (s : Sorting) (r : Option Sorting) : Type 0 where
    pub after : Sorting
    pub done : r ≡ some after
    pub same_visiting : after.visiting ≡ s.visiting
    pub grows : (id : String) → In id s.visited → In id after.visited
    pub reached : (id : String) → In id ids → In id after.visited
    pub known_only : (id : String) → In id after.visited → In id s.visited ⊎ In id (keys plugins)
    pub fresh : (id : String) → In id after.visited → In id s.visited ⊎ (¬ In id s.visiting)
    pub sorting : IsSorting s → IsSorting after

  pub Visited-nil : (s : Sorting) → Visited [] s (some s)
  Visited-nil s = record {
    after = s;
    done = refl;
    same_visiting = refl;
    grows = λ id m. m;
    reached = λ id m. absurd m;
    known_only = λ id m. inl m;
    fresh = λ id m. inl m;
    sorting = λ h. h;
  }

  pub Visited-append :
      (id : String) (ids : List String) (s : Sorting) (r : Option Sorting)
      → (h : Visited (id ∷ []) s r) → (q : Option Sorting) → Visited ids h.after q
      → Visited (id ∷ ids) s q
  Visited-append id ids s r h q k = record {
    after = k.after;
    done = k.done;
    same_visiting = k.same_visiting ∙ h.same_visiting;
    grows = λ i m. k.grows i (h.grows i m);
    reached = λ i m. elim m [
      | inl here ↦ k.grows i (h.reached i (inl here))
      | inr there ↦ k.reached i there
    ];
    known_only =
        λ i m. elim (k.known_only i m) [ inl before ↦ h.known_only i before | inr key ↦ inr key ];
    fresh = λ i m. elim (k.fresh i m) [
      | inl before ↦ h.fresh i before
      | inr new ↦ inr (λ on. new (subst (In i) (sym h.same_visiting) on))
    ];
    sorting = λ v. k.sorting (h.sorting v);
  }

  pub Visited-old : (id : String) (s : Sorting) → In id s.visited → Visited (id ∷ []) s (some s)
  Visited-old id s seen = record {
    after = s;
    done = refl;
    same_visiting = refl;
    grows = λ i m. m;
    reached = λ i m. elim m [
      | inl here ↦ subst (λ x. In x s.visited) (sym here) seen
      | inr never ↦ absurd never
    ];
    known_only = λ i m. inl m;
    fresh = λ i m. inl m;
    sorting = λ h. h;
  }

  -- The end of `visit`: the plugins that this one depends on are sorted, and it follows them.
  pub Visited-finish :
      (id : String) (s : Sorting) (r : Option Sorting)
      → In id (keys plugins)
      → ¬ In id s.visited
      → ¬ In id s.visiting
      → Visited (known plugins (targets plugins id)) (begin s id) r
      → Visited (id ∷ []) s (finish_after id r)
  Visited-finish id s r key new off h = record {
    after = finish h.after id;
    done = rw (h.done) refl;
    same_visiting = ap (keep (λ i. not (str_eq i id))) h.same_visiting ∙ keep-new id s.visiting off;
    grows = λ i m. inr (h.grows i m);
    reached = λ i m. elim m [ inl here ↦ inl here | inr never ↦ absurd never ];
    known_only = λ i m. elim m [
      | inl here ↦ inr (subst (λ x. In x (keys plugins)) (sym here) key)
      | inr there ↦ h.known_only i there
    ];
    fresh = λ i m. elim m [
      | inl here ↦ inr (subst (λ x. ¬ In x s.visiting) (sym here) off)
      | inr there ↦ elim (h.fresh i there) [
        | inl before ↦ inl before
        | inr other ↦ inr (λ on. other (inr on))
      ]
    ];
    sorting = λ v.
        let w = h.sorting (record {
          placed = v.placed;
          sorted_visited = v.sorted_visited;
          visited_sorted = v.visited_sorted;
        }) in
        record {
          placed =
              Placed-append plugins [] h.after.sorted id w.placed
                (λ d m. inr (w.visited_sorted d (h.reached d m))) (λ never. never)
                (λ m. elim (h.fresh id (w.sorted_visited id m)) [
                  | inl before ↦ new before
                  | inr other ↦ other (inl refl)
                ]);
          sorted_visited = λ i m. elim (In-append_cases i h.after.sorted (id ∷ []) m) [
            | inl there ↦ inr (w.sorted_visited i there)
            | inr last ↦ elim last [ inl here ↦ inl here | inr never ↦ absurd never ]
          ];
          visited_sorted = λ i m. elim m [
            | inl here ↦ In-append_right i h.after.sorted (id ∷ []) (inl here)
            | inr there ↦ In-append_left i h.after.sorted (id ∷ []) (w.visited_sorted i there)
          ];
        };
  }
