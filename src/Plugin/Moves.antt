-- ===== src/Plugin/Moves.antt =====
-- How the parts of the methods of PluginManager (src/plugin/pluginManager.ts) move the plugins, for any relation
-- on states that the legal moves and the move to Error are in.
use axionvera_sdk.Prelude.{
  suc, ◌≤◌, ◌<◌, ◌≡◌, refl, sym, ap, ◌∙◌, subst, ◌≢◌, ◌⊎◌, inl, inr, String, true, Option, none,
  some, ok, arith, Option-cases, Outcome-cases, ==_iff,
}
use axionvera_sdk.Prelude.Dict.{get, get-set_cases, get-delete_before}
use axionvera_sdk.Plugin.Types.{State, registered, error, Instance}
use axionvera_sdk.Plugin.Lifecycle.{is_valid_transition, transition_state}
use axionvera_sdk.Plugin.Keeps.{IsStable}
use axionvera_sdk.Plugin.Runs.{
  Manager, id_of, found, current, put, update, with_state, with_error, move,
}

pub found_some :
    (p : Instance) (o : Option Instance) (q : Instance)
    → found p o ≡ some q
    → (o ≡ some q) × (p.serial ≡ q.serial)
unfolding found
found_some p none q e = cc
found_some p (some r) q e = ground (arith, ==_iff r.serial p.serial)

-- A relation on states that the moves of the methods are in.
pub record IsClosed (R : State → State → Type 0) : Type 0 where
  pub stays : (s : State) → R s s
  pub follows : (s t u : State) → R s t → R t u → R s u
  pub legal : (s t : State) → is_valid_transition s t ≡ true → t ≢ registered → R s t
  pub fails : (s : State) → R s error

module _ (R : State → State → Type 0) where
  -- What became of an instance: it stood there before, under the same id, or it is new.
  abbrev pub Origin : Manager → Manager → String → Instance → Type 0
  Origin m t id q =
      ((p : Instance) × (get id m.plugins ≡ some p) × (p.serial ≡ q.serial) × R p.state q.state)
      ⊎ ((m.next ≤ q.serial) × (q.serial < t.next))

  pub record Kept (m t : Manager) : Type 0 where
    pub grows : m.next ≤ t.next
    pub origin : (id : String) (q : Instance) → get id t.plugins ≡ some q → Origin m t id q

module _ (R : State → State → Type 0) (closed : IsClosed R) where
  -- Where the map of plugins is the same.
  pub Kept-same : (m t : Manager) → t.next ≡ m.next → t.plugins ≡ m.plugins → Kept R m t
  Kept-same m t e f = record {
    grows = omega (arith, e);
    origin = λ id q h. inl (q, sym (ap (get id) f) ∙ h, refl, closed.stays q.state);
  }

  pub Kept-trans : (a b c : Manager) → Kept R a b → Kept R b c → Kept R a c
  Kept-trans a b c h k = record {
    grows = omega (arith, h.grows, k.grows);
    origin = λ id q e. elim (k.origin id q e) [
      | inl (p, there, same, moved) ↦ elim (h.origin id p there) [
        | inl (o, there_before, same_before, moved_before) ↦
            inl (o, there_before, same_before ∙ same, closed.follows _ _ _ moved_before moved)
        | inr fresh ↦ inr (omega (arith, same, k.grows))
      ]
      | inr fresh ↦ inr (omega (arith, h.grows))
    ];
  }

  pub update-Kept :
      (p : Instance) (change : Instance → Instance) (m : Manager)
      → ((q : Instance)
          → found p (get (id_of p) m.plugins) ≡ some q
          → (q.serial ≡ (change q).serial) × R q.state (change q).state)
      → Kept R m (update p change m)
  unfolding update put
  update-Kept p change m h = elim (Option-cases (found p (get (id_of p) m.plugins))) [
    | inl missing ↦ rw (missing, update) (Kept-same m m refl refl)
    | inr (q, there) ↦
        let (same, moved) = h q there in
        rw (there, update)
          (record {
            grows = omega arith;
            origin = λ id r e. elim (get-set_cases (id_of p) id (change q) r m.plugins e) [
              | inl (here, new) ↦ inl (
                q,
                subst (λ k. get k m.plugins ≡ some q) here (found_some p _ q there).0,
                same ∙ ap (λ x. x.serial) new,
                subst (λ x. R q.state x.state) new moved,
              )
              | inr before ↦ inl (r, before, refl, closed.stays r.state)
            ];
          })
  ]

  current-found :
      (p q : Instance) (m : Manager) → found p (get (id_of p) m.plugins) ≡ some q → current p m ≡ q
  unfolding current
  current-found p q m h = rw h

  transition_state-ok :
      (id : String) (s target t : State)
      → transition_state id s target ≡ ok t
      → (is_valid_transition s target ≡ true) × (target ≡ t)
  unfolding transition_state
  transition_state-ok id s target t h = ground arith

  move-Kept :
      (p : Instance) (target : State) (m : Manager)
      → target ≢ registered
      → Kept R m (move p target m).0
  unfolding move
  move-Kept p target m other =
      elim (Outcome-cases (transition_state (id_of p) (current p m).state target)) [
        | inl (e, illegal) ↦ rw (illegal, move) (Kept-same m m refl refl)
        | inr (s, moved) ↦
            let (legal, same) = transition_state-ok (id_of p) (current p m).state target s moved in
            rw (moved, move)
              (update-Kept p (with_state s) m (λ q there. (
                refl,
                subst (R q.state) same (
                    closed.legal q.state target
                      (subst (λ c. is_valid_transition c.state target ≡ true)
                        (current-found p q m there) legal)
                      other),
              )))
      ]

  -- A new instance takes the next number.
  add-Kept :
      (p : Instance) (m : Manager)
      → p.serial ≡ m.next
      → Kept R m (record (put (id_of p) p m) { next = suc m.next })
  unfolding put
  add-Kept p m new = record {
    grows = omega arith;
    origin = λ k q e. elim (get-set_cases (id_of p) k p q m.plugins e) [
      | inl (here, same) ↦ inr (omega (arith, new, ap (λ x. x.serial) same))
      | inr before ↦ inl (q, before, refl, closed.stays q.state)
    ];
  }

  pub Kept-IsStable : IsStable (Kept R)
  Kept-IsStable = record {
    same = Kept-same;
    trans = Kept-trans;
    moved = move-Kept;
    broken = λ p e m. update-Kept p (with_error e) m (λ q there. (refl, closed.fails q.state));
    added = λ p m new free. add-Kept p m new;
    removed = λ id m. record {
      grows = omega arith;
      origin = λ k q e. inl (q, get-delete_before id k q m.plugins e, refl, closed.stays q.state);
    };
  }
