-- ===== src/Plugin/Resolved.antt =====
-- `resolveDependencies` of src/plugin/registry.ts: the list that it returns is closed under the dependencies.
use mathlib.Core.Option.{some-injective, none-ne-some}
use axionvera_sdk.Prelude.{
  ◌≡◌, refl, sym, ap, ◌∙◌, subst, inl, inr, ◌⊎◌, String, Option, none, some, List, [], ◌∷◌, ◌++◌,
  In, In-append_left, In-append_right, In-append_cases,
}
use axionvera_sdk.Prelude.Dict.{get}
use axionvera_sdk.Plugin.Types.{Manifest, RegistryEntry}
use axionvera_sdk.Plugin.Registry.{Entries, required_by, Resolving, wanted, see, push_after}

module _ (entries : Entries) where
  -- A manifest of the registry whose wanted dependencies were all seen.
  pub record IsClosed (after : Resolving) (id : String) (m : Manifest) : Type 0 where
    pub entry : RegistryEntry
    pub there : get id entries ≡ some entry
    pub same : entry.manifest ≡ m
    pub all_seen : (d : String) → In d (wanted entries (required_by m)) → In d after.seen

  -- What resolving some ids has done: an id seen since has its manifest in the list, if it has an entry.
  pub record Resolved (ids : List String) (s : Resolving) (r : Option Resolving) : Type 0 where
    pub after : Resolving
    pub done : r ≡ some after
    pub grows : (i : String) → In i s.seen → In i after.seen
    pub reached : (i : String) → In i ids → In i after.seen
    pub kept : (m : Manifest) → In m s.resolved → In m after.resolved
    pub closed :
        (m : Manifest)
        → In m after.resolved
        → In m s.resolved ⊎ ((id : String) × IsClosed after id m)
    pub settled :
        (i : String) (e : RegistryEntry)
        → In i after.seen
        → get i entries ≡ some e
        → In i s.seen ⊎ In e.manifest after.resolved

  pub Resolved-nil : (s : Resolving) → Resolved [] s (some s)
  Resolved-nil s = record {
    after = s;
    done = refl;
    grows = λ i h. h;
    reached = λ i h. absurd h;
    kept = λ m h. h;
    closed = λ m h. inl h;
    settled = λ i e h k. inl h;
  }

  IsClosed-grows :
      (s t : Resolving) (id : String) (m : Manifest)
      → ((i : String) → In i s.seen → In i t.seen)
      → IsClosed s id m
      → IsClosed t id m
  IsClosed-grows s t id m grows c = record {
    entry = c.entry;
    there = c.there;
    same = c.same;
    all_seen = λ d h. grows d (c.all_seen d h);
  }

  pub Resolved-cons :
      (id : String) (ids : List String) (s : Resolving) (r q : Option Resolving)
      → (h : Resolved (id ∷ []) s r) → Resolved ids h.after q
      → Resolved (id ∷ ids) s q
  Resolved-cons id ids s r q h k = record {
    after = k.after;
    done = k.done;
    grows = λ i m. k.grows i (h.grows i m);
    reached = λ i m. elim m [
      | inl here ↦ k.grows i (h.reached i (inl here))
      | inr there ↦ k.reached i there
    ];
    kept = λ m w. k.kept m (h.kept m w);
    closed = λ m w. elim (k.closed m w) [
      | inr c ↦ inr c
      | inl before ↦ elim (h.closed m before) [
        | inl first ↦ inl first
        | inr (j, c) ↦ inr (j, IsClosed-grows h.after k.after j m k.grows c)
      ]
    ];
    settled = λ i e w there. elim (k.settled i e w there) [
      | inr listed ↦ inr listed
      | inl before ↦ elim (h.settled i e before there) [
        | inl first ↦ inl first
        | inr listed ↦ inr (k.kept e.manifest listed)
      ]
    ];
  }

  pub Resolved-seen : (id : String) (s : Resolving) → In id s.seen → Resolved (id ∷ []) s (some s)
  Resolved-seen id s h = record {
    after = s;
    done = refl;
    grows = λ i m. m;
    reached = λ i m. elim m [
      | inl here ↦ subst (λ x. In x s.seen) (sym here) h
      | inr never ↦ absurd never
    ];
    kept = λ m w. w;
    closed = λ m w. inl w;
    settled = λ i e w there. inl w;
  }

  -- An id without an entry.
  pub Resolved-missing :
      (id : String) (s : Resolving) → get id entries ≡ none → Resolved (id ∷ []) s (some (see s id))
  Resolved-missing id s gone = record {
    after = see s id;
    done = refl;
    grows = λ i m. inr m;
    reached = λ i m. elim m [ inl here ↦ inl here | inr never ↦ absurd never ];
    kept = λ m w. w;
    closed = λ m w. inl w;
    settled = λ i e w there. elim w [
      | inl here ↦ absurd (none-ne-some e (sym gone ∙ sym (ap (λ x. get x entries) here) ∙ there))
      | inr before ↦ inl before
    ];
  }

  -- An id with an entry, after its dependencies.
  pub Resolved-push :
      (id : String) (s : Resolving) (e : RegistryEntry) (r : Option Resolving)
      → get id entries ≡ some e
      → Resolved (wanted entries (required_by e.manifest)) (see s id) r
      → Resolved (id ∷ []) s (push_after e.manifest r)
  Resolved-push id s e r found h =
      let t = record h.after { resolved = h.after.resolved ++ e.manifest ∷ [] } in
      record {
        after = t;
        done = rw (h.done) refl;
        grows = λ i m. h.grows i (inr m);
        reached = λ i m. elim m [
          | inl here ↦ subst (λ x. In x h.after.seen) (sym here) (h.grows id (inl refl))
          | inr never ↦ absurd never
        ];
        kept = λ m w. In-append_left m h.after.resolved (e.manifest ∷ []) (h.kept m w);
        closed = λ m w. elim (In-append_cases m h.after.resolved (e.manifest ∷ []) w) [
          | inl before ↦ elim (h.closed m before) [
            | inl first ↦ inl first
            | inr (j, c) ↦ inr (j, IsClosed-grows h.after t j m (λ i v. v) c)
          ]
          | inr last ↦ elim last [
            | inr never ↦ absurd never
            | inl here ↦ inr (
              id,
              record {
                entry = e;
                there = found;
                same = sym here;
                all_seen =
                    λ d v. h.reached d (subst (λ x. In d (wanted entries (required_by x))) here v);
              },
            )
          ]
        ];
        settled = λ i x w there. elim (h.settled i x w there) [
          | inr listed ↦ inr (In-append_left x.manifest h.after.resolved (e.manifest ∷ []) listed)
          | inl before ↦ elim before [
            | inr first ↦ inl first
            | inl here ↦
                let same =
                  some-injective e x (sym found ∙ sym (ap (λ y. get y entries) here) ∙ there) in
                inr (
                  In-append_right x.manifest h.after.resolved (e.manifest ∷ [])
                    (inl (ap (λ y. y.manifest) (sym same))))
          ]
        ];
      }
