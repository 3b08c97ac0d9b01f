-- ===== src/Plugin/Explored.antt =====
-- The search for cycles (detectCircularDependencies of src/plugin/validation.ts) ends, and where it reports
-- nothing it finishes each plugin after all that it depends on.
use axionvera_sdk.Prelude.{
  ◌≡◌, refl, sym, ap, ◌∙◌, ◌≢◌, ◌⊎◌, inl, inr, String, true, false, not, Option, some, List, [],
  ◌∷◌, ◌++◌, In, keep, Bool-cases, str_eq, subst,
}
use axionvera_sdk.Prelude.Dict.{Dict}
use axionvera_sdk.Plugin.Types.{Config}
use axionvera_sdk.Plugin.Cycles.{
  is_member, targets, Search, enter, leave, close_cycle, from_first, without_last, visit,
  leave_after,
}
use axionvera_sdk.Plugin.Members.{is_member_not, keep-new}

pub append_ne_nil : {A : Type 0} (xs : List A) (y : A) → (xs ++ y ∷ []) ≢ []
append_ne_nil [] y e = cc
append_ne_nil (x ∷ xs) y e = cc

without_last-append : (is : List String) (i : String) → without_last (is ++ i ∷ []) ≡ is
unfolding without_last
without_last-append [] i = refl
without_last-append (j ∷ []) i = refl
without_last-append (j ∷ k ∷ is) i = ap (λ r. j ∷ r) (without_last-append (k ∷ is) i)

module _ (plugins : Dict Config) where
  -- Finished ids, the last one first: each once, and after all that its plugin depends on.
  abbrev pub Ordered : List String → Type 0
  Ordered [] = Unit
  Ordered (id ∷ ids) =
      ((d : String) → In d (targets plugins id) → In d ids) × (¬ In id ids) × Ordered ids

  -- `done` has the visited ids that are not on the stack.
  pub record IsSplit (s : Search) (done : List String) : Type 0 where
    pub covers : (id : String) → In id s.visited → In id s.stack ⊎ In id done
    pub done_visited : (id : String) → In id done → In id s.visited
    pub ordered : Ordered done

  -- What a search of `ids` from `s` has found where it reports nothing.
  pub record Finished (ids : List String) (s t : Search) (done : List String) : Type 0 where
    pub after : List String
    pub split : IsSplit t after
    pub reached : (id : String) → In id ids → In id after
    pub kept : (id : String) → In id done → In id after
    pub fresh : (id : String) → In id after → In id done ⊎ (¬ In id s.visited)

  pub record Explored (ids : List String) (s : Search) (r : Option Search) : Type 0 where
    pub after : Search
    pub done : r ≡ some after
    pub grows : (id : String) → In id s.visited → In id after.visited
    pub same_stack : after.stack ≡ s.stack
    pub same_path : after.path ≡ s.path
    pub quiet : after.cycles ≡ [] → s.cycles ≡ []
    pub finish :
        after.cycles ≡ [] → (done : List String) → IsSplit s done → Finished ids s after done

  pub visit_seen :
      (go : String → Search → Option Search) (id : String) (ids : List String) (s : Search)
      → is_member id s.visited ≡ true
      → visit go (id ∷ ids) s ≡ visit go ids (close_cycle s id)
  unfolding visit
  visit_seen go id ids s h = rw (h, visit) refl

  pub visit_new :
      (go : String → Search → Option Search) (id : String) (ids : List String) (s t : Search)
      → is_member id s.visited ≡ false
      → go id s ≡ some t
      → visit go (id ∷ ids) s ≡ visit go ids t
  unfolding visit
  visit_new go id ids s t h e = rw (h, visit) (rw e refl)

  -- A back edge is reported; another edge to a visited plugin changes nothing.
  close_cycle-cases :
      (s : Search) (id : String)
      → ((is_member id s.stack ≡ false) × (close_cycle s id ≡ s))
        ⊎ ((is_member id s.stack ≡ true)
            × ((close_cycle s id).cycles ≢ [])
            × ((close_cycle s id).visited ≡ s.visited)
            × ((close_cycle s id).stack ≡ s.stack)
            × ((close_cycle s id).path ≡ s.path))
  unfolding close_cycle
  close_cycle-cases s id = elim (Bool-cases (is_member id s.stack)) [
    | inl e ↦ inr (
      e,
      rw e (append_ne_nil s.cycles (from_first id s.path ++ id ∷ [])),
      rw e refl,
      rw e refl,
      rw e refl,
    )
    | inr e ↦ inl (e, rw e refl)
  ]

  -- Either way the visited ids and the stack are as before.
  pub close_cycle_same :
      (s : Search) (id : String)
      → ((close_cycle s id).visited ≡ s.visited) × ((close_cycle s id).stack ≡ s.stack)
  close_cycle_same s id = elim (close_cycle-cases s id) [
    | inl (off, same) ↦ rw same (refl, refl)
    | inr (on, reported, visited, stack, path) ↦ (visited, stack)
  ]

  -- One search, then the others.
  Finished-append :
      (id : String) (ids : List String) (s t u : Search) (done : List String)
      → ((i : String) → In i s.visited → In i t.visited)
      → (h : Finished (id ∷ []) s t done) → Finished ids t u h.after
      → Finished (id ∷ ids) s u done
  Finished-append id ids s t u done grows h k = record {
    after = k.after;
    split = k.split;
    reached =
        λ i m. elim m [ inl e ↦ k.kept i (h.reached i (inl e)) | inr there ↦ k.reached i there ];
    kept = λ i m. k.kept i (h.kept i m);
    fresh = λ i m. elim (k.fresh i m) [
      | inl there ↦ h.fresh i there
      | inr new ↦ inr (λ seen. new (grows i seen))
    ];
  }

  pub Explored-nil : (s : Search) → Explored [] s (some s)
  Explored-nil s = record {
    after = s;
    done = refl;
    grows = λ id m. m;
    same_stack = refl;
    same_path = refl;
    quiet = λ e. e;
    finish = λ e done h. record {
      after = done;
      split = h;
      reached = λ id m. absurd m;
      kept = λ id m. m;
      fresh = λ id m. inl m;
    };
  }

  pub Explored-new :
      (id : String) (ids : List String) (s : Search) (r : Option Search)
      → (h : Explored (id ∷ []) s r) → (q : Option Search) → Explored ids h.after q
      → Explored (id ∷ ids) s q
  Explored-new id ids s r h q k = record {
    after = k.after;
    done = k.done;
    grows = λ i m. k.grows i (h.grows i m);
    same_stack = k.same_stack ∙ h.same_stack;
    same_path = k.same_path ∙ h.same_path;
    quiet = λ e. h.quiet (k.quiet e);
    finish = λ e done split.
        let first = h.finish (k.quiet e) done split in
        Finished-append id ids s h.after k.after done h.grows first
          (k.finish e first.after first.split);
  }

  -- A visited plugin that is not on the stack is finished already.
  pub Explored-old :
      (id : String) (ids : List String) (s : Search) (q : Option Search)
      → In id s.visited
      → is_member id s.stack ≡ false
      → Explored ids s q
      → Explored (id ∷ ids) s q
  Explored-old id ids s q seen off k =
      Explored-new id ids s (some s)
        (record {
          after = s;
          done = refl;
          grows = λ i m. m;
          same_stack = refl;
          same_path = refl;
          quiet = λ e. e;
          finish = λ e done split. record {
            after = done;
            split = split;
            reached = λ i m. elim m [
              | inl here ↦ elim (split.covers id seen) [
                | inl on ↦ absurd (is_member_not id s.stack off on)
                | inr finished ↦ subst (λ x. In x done) (sym here) finished
              ]
              | inr there ↦ absurd there
            ];
            kept = λ i m. m;
            fresh = λ i m. inl m;
          };
        })
        q k

  pub Explored-seen :
      (id : String) (ids : List String) (s : Search) (q : Option Search)
      → In id s.visited
      → Explored ids (close_cycle s id) q
      → Explored (id ∷ ids) s q
  Explored-seen id ids s q seen k = elim (close_cycle-cases s id) [
    | inl (off, same) ↦ Explored-old id ids s q seen off (subst (λ x. Explored ids x q) same k)
    | inr (on, reported, visited, stack, path) ↦ record {
      after = k.after;
      done = k.done;
      grows = λ i m. k.grows i (subst (In i) (sym visited) m);
      same_stack = k.same_stack ∙ stack;
      same_path = k.same_path ∙ path;
      quiet = λ e. absurd (reported (k.quiet e));
      finish = λ e done split. absurd (reported (k.quiet e));
    }
  ]

  -- The end of `dfs`: what was entered is finished.
  pub Explored-leave :
      (id : String) (s : Search) (r : Option Search)
      → ¬ In id s.visited
      → ((i : String) → In i s.stack → In i s.visited)
      → Explored (targets plugins id) (enter s id) r
      → Explored (id ∷ []) s (leave_after id r)
  unfolding leave
  Explored-leave id s r new on_stack h =
      let t = leave h.after id in
      let stack =
        ap (keep (λ i. not (str_eq i id))) h.same_stack
        ∙ keep-new id s.stack (λ m. new (on_stack id m)) in
      let path = ap without_last h.same_path ∙ without_last-append s.path id in
      record {
        after = t;
        done = rw (h.done) refl;
        grows = λ i m. h.grows i (inr m);
        same_stack = stack;
        same_path = path;
        quiet = λ e. h.quiet e;
        finish = λ e done split.
            let f = h.finish e done (record {
              covers = λ i m. elim m [
                | inl here ↦ inl (inl here)
                | inr there ↦ elim (split.covers i there) [ inl w ↦ inl (inr w) | inr d ↦ inr d ]
              ];
              done_visited = λ i m. inr (split.done_visited i m);
              ordered = split.ordered;
            }) in
            record {
              after = id ∷ f.after;
              split = record {
                covers = λ i m. elim (f.split.covers i m) [
                  | inl on ↦ elim (subst (In i) h.same_stack on) [
                    | inl here ↦ inr (inl here)
                    | inr below ↦ inl (subst (In i) (sym stack) below)
                  ]
                  | inr finished ↦ inr (inr finished)
                ];
                done_visited = λ i m. elim m [
                  | inl here ↦ subst (λ x. In x h.after.visited) (sym here) (h.grows id (inl refl))
                  | inr there ↦ f.split.done_visited i there
                ];
                ordered = (
                  f.reached,
                  (λ m. elim (f.fresh id m) [
                    | inl before ↦ new (split.done_visited id before)
                    | inr unseen ↦ unseen (inl refl)
                  ]),
                  f.split.ordered,
                );
              };
              reached = λ i m. elim m [ inl here ↦ inl here | inr there ↦ absurd there ];
              kept = λ i m. inr (f.kept i m);
              fresh = λ i m. elim m [
                | inl here ↦ inr (subst (λ x. ¬ In x s.visited) (sym here) new)
                | inr there ↦ elim (f.fresh i there) [
                  | inl before ↦ inl before
                  | inr unseen ↦ inr (λ v. unseen (inr v))
                ]
              ];
            };
      }
