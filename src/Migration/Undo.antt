-- ===== src/Migration/Undo.antt =====
-- What MigrationRunner does with a plan (src/migrations/migrationRunner.ts).
use axionvera_sdk.Prelude.{
  ok_of_chain, ◌≡◌, refl, sym, ap, ◌∙◌, String, Bool, none, some, List, [], ◌∷◌, ◌++◌, append_assoc,
  append-nil, map, Outcome, ok, err, All,
}
use axionvera_sdk.Migration.Types.{Thrown, step_succeeded, Context, Step, StepResult}
use axionvera_sdk.Migration.Validator.{Validator}
use axionvera_sdk.Migration.Runner.{
  Progress, RollbackOutcome, backwards, succeeded, failed_with, undone, undo_step, undo_all, check,
  attempt, forward,
}

module _ {S : Type 0} where
  undo_all-append :
      (c : Context) (o : RollbackOutcome S) (xs ys : List (Step S))
      → undo_all c o (xs ++ ys) ≡ undo_all c (undo_all c o xs) ys
  unfolding undo_all
  undo_all-append c o [] ys = refl
  undo_all-append c o (x ∷ xs) ys = undo_all-append c (undo_step c o x) xs ys

  -- The rollback of a step takes back what its `migrate` did.
  pub record IsUndone (c : Context) (step : Step S) : Type 0 where
    pub back : S → Context → Outcome Thrown S
    pub has : step.rollback ≡ some back
    pub inverse : (s t : S) → step.migrate s c ≡ ok t → back t c ≡ ok s

  abbrev pub undone_all : List (Step S) → List StepResult
  undone_all = map λ x. undone x none step_succeeded

  undone_all-append :
      (xs ys : List (Step S)) → undone_all (xs ++ ys) ≡ undone_all xs ++ undone_all ys
  undone_all-append [] ys = refl
  undone_all-append (x ∷ xs) ys =
      ap (λ rs. undone x none step_succeeded ∷ rs) (undone_all-append xs ys)

  undo_step-IsUndone :
      (c : Context) (x : Step S) (s u : S) (rs : List StepResult) (b : Bool)
      → IsUndone c x
      → x.migrate s c ≡ ok u
      → undo_step c (record { state = u; results = rs; all_rolled_back = b }) x ≡ record {
        state = s;
        results = rs ++ undone x none step_succeeded ∷ [];
        all_rolled_back = b;
      }
  unfolding undo_step
  undo_step-IsUndone c x s u rs b k m = rw (k.has, k.inverse s u m, undo_step) refl

  module _ (v : Validator S) (contract : String) (validating : Bool) (c : Context) where
    -- Each step takes the state on, from `s` to `t`.
    abbrev pub Runs : S → List (Step S) → S → Type 0
    Runs s [] t = s ≡ t
    Runs s (x ∷ xs) t = (u : S) × (attempt v contract validating c x s ≡ ok u) × Runs u xs t

    abbrev pub after : Progress S → List (Step S) → S → Progress S
    after p xs t = record p {
      state = t;
      results = p.results ++ map (λ x. succeeded x) xs;
      completed_steps = p.completed_steps ++ xs;
    }

    pub forward-ok :
        (p : Progress S) (x : Step S) (xs : List (Step S)) (u : S)
        → attempt v contract validating c x p.state ≡ ok u
        → forward v contract validating c p (x ∷ xs)
          ≡ forward v contract validating c (after p (x ∷ []) u) xs
    unfolding forward
    forward-ok p x xs u e = rw (e, forward) refl

    pub forward-err :
        (p : Progress S) (x : Step S) (xs : List (Step S)) (e : Thrown)
        → attempt v contract validating c x p.state ≡ err e
        → forward v contract validating c p (x ∷ xs)
          ≡ record p { results = p.results ++ failed_with x e ∷ []; failure = some e }
    unfolding forward
    forward-err p x xs e h = rw (h, forward) refl

    after-after :
        (p : Progress S) (x : Step S) (xs : List (Step S)) (u t : S)
        → after (after p (x ∷ []) u) xs t ≡ after p (x ∷ xs) t
    after-after p x xs u t = cc (
      append_assoc p.results (succeeded x ∷ []) (map (λ y. succeeded y) xs),
      append_assoc p.completed_steps (x ∷ []) xs,
    )

    after-none : (p : Progress S) (t : S) → p.state ≡ t → p ≡ after p [] t
    after-none p t e = cc (e, append-nil p.results, append-nil p.completed_steps)

    pub forward-Runs :
        (p : Progress S) (xs rest : List (Step S)) (t : S)
        → Runs p.state xs t
        → forward v contract validating c p (xs ++ rest)
          ≡ forward v contract validating c (after p xs t) rest
    forward-Runs p [] rest t e = ap (λ q. forward v contract validating c q rest) (after-none p t e)
    forward-Runs p (x ∷ xs) rest t (u, step, runs) =
        forward-ok p x (xs ++ rest) u step
        ∙ forward-Runs (after p (x ∷ []) u) xs rest t runs
        ∙ ap (λ q. forward v contract validating c q rest) (after-after p x xs u t)

    attempt-migrate :
        (x : Step S) (s t : S) → attempt v contract validating c x s ≡ ok t → x.migrate s c ≡ ok t
    unfolding attempt
    attempt-migrate x s t h =
        let (_, _, chained) = ok_of_chain (check v contract validating c x.from_version s) _ t h in
        let (next, moved, then₂) = ok_of_chain (x.migrate s c) _ t chained in
        let (_, _, same) =
          ok_of_chain (check v contract validating c x.to_version next) _ t then₂ in
        cc (moved, same)

    pub undo_all-Runs :
        (xs : List (Step S)) (s t : S) (rs : List StepResult) (b : Bool)
        → Runs s xs t
        → All (IsUndone c) xs
        → undo_all c (record { state = t; results = rs; all_rolled_back = b }) (backwards xs)
          ≡ record { state = s; results = rs ++ undone_all (backwards xs); all_rolled_back = b }
    unfolding backwards undo_all
    undo_all-Runs [] s t rs b e k = cc (e, append-nil rs)
    undo_all-Runs (x ∷ xs) s t rs b (u, step, runs) (k, ks) =
        undo_all-append c _ (backwards xs) (x ∷ [])
        ∙ ap (λ o. undo_all c o (x ∷ [])) (undo_all-Runs xs u t rs b runs ks)
        ∙ undo_step-IsUndone c x s u (rs ++ undone_all (backwards xs)) b k
            (attempt-migrate x s u step)
        ∙ ap (λ r. record { state = s; results = r; all_rolled_back = b })
            (append_assoc rs (undone_all (backwards xs)) (undone_all (x ∷ []))
              ∙ ap (λ r. rs ++ r) (sym (undone_all-append (backwards xs) (x ∷ []))))
