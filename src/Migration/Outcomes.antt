-- ===== src/Migration/Outcomes.antt =====
-- What MigrationRunner.run returns (src/migrations/migrationRunner.ts).
use axionvera_sdk.Prelude.{
  subst, suc, ◌≡◌, refl, sym, ap, ◌∙◌, Bool, true, false, not, ◌&&◌, none, some, List, [], ◌∷◌,
  ◌++◌, append-nil, map, keep, length, is_empty, if◌then◌else◌, or_else, Outcome, err, arith, All,
}
use axionvera_sdk.Migration.Types.{Thrown, completed, failed, rolled_back, Step, Plan, RunOptions}
use axionvera_sdk.Migration.Validator.{Validator}
use axionvera_sdk.Migration.Runner.{
  is_truthy, Progress, RollbackOutcome, backwards, succeeded, failed_with, rollback, attempt,
  forward, context_of, conclude, finish, initial_progress, run, is_success,
}
use axionvera_sdk.Migration.Undo.{
  IsUndone, Runs, undone_all, forward-Runs, forward-err, undo_all-Runs,
}

module _ {S : Type 0} where
  all_succeeded :
      (xs : List (Step S))
      → (length (keep (λ r. is_success r) (map (λ x. succeeded x) xs)) ≡ length xs)
        × (length (keep (λ r. not (is_success r)) (map (λ x. succeeded x) xs)) ≡ 0)
  unfolding is_success
  all_succeeded [] = (refl, refl)
  all_succeeded (x ∷ xs) = let (e, f) = all_succeeded xs in (ap suc e, f)

  module _ (v : Validator S) (plan : Plan S) (s : S) (o : RunOptions) where
    abbrev pub validating : Bool
    validating = or_else o.validate_state true

    abbrev pub Takes : S → List (Step S) → S → Type 0
    Takes = Runs v plan.contract_id validating (context_of plan o)

    abbrev pub tries : Step S → S → Outcome Thrown S
    tries = attempt v plan.contract_id validating (context_of plan o)

    abbrev pub is_dry : Bool
    is_dry = or_else o.dry_run false

    -- The progress where steps were taken and the next one, if there is one, threw.
    completed_progress : List (Step S) → S → Progress S
    completed_progress xs t = record {
      state = t;
      results = map (λ x. succeeded x) xs;
      completed_steps = xs;
      failure = none;
    }

    failed_progress : List (Step S) → S → Step S → Thrown → Progress S
    failed_progress xs t bad e = record {
      state = t;
      results = map (λ x. succeeded x) xs ++ failed_with bad e ∷ [];
      completed_steps = xs;
      failure = some e;
    }

    forward_all : List (Step S) → Progress S
    forward_all = forward v plan.contract_id validating (context_of plan o) (initial_progress s)

    forward-completed :
        (t : S) → Takes s plan.steps t → forward_all plan.steps ≡ completed_progress plan.steps t
    unfolding forward_all completed_progress forward
    forward-completed t runs =
        ap (λ xs. forward_all xs) (sym (append-nil plan.steps))
        ∙ forward-Runs v plan.contract_id validating (context_of plan o) (initial_progress s)
            plan.steps [] t runs

    forward-failed :
        (xs rest : List (Step S)) (bad : Step S) (t : S) (e : Thrown)
        → plan.steps ≡ xs ++ bad ∷ rest
        → Takes s xs t
        → tries bad t ≡ err e
        → forward_all plan.steps ≡ failed_progress xs t bad e
    unfolding forward_all failed_progress
    forward-failed xs rest bad t e split runs threw =
        ap (λ ys. forward_all ys) split
        ∙ forward-Runs v plan.contract_id validating (context_of plan o) (initial_progress s) xs
            (bad ∷ rest) t runs
        ∙ forward-err v plan.contract_id validating (context_of plan o) _ bad rest e threw

    run-forward : run v plan s o ≡ conclude plan s o (forward_all plan.steps)
    unfolding run forward_all
    run-forward = refl

    counts :
        (xs : List (Step S)) (bad : Step S) (e : Thrown)
        → let rs = map (λ x. succeeded x) xs ++ failed_with bad e ∷ [] in
          (length (keep (λ r. is_success r) rs) ≡ length xs)
          × (length (keep (λ r. not (is_success r)) rs) ≡ 1)
    unfolding is_success
    counts [] bad e = (refl, refl)
    counts (x ∷ xs) bad e = let (a, b) = counts xs bad e in (ap suc a, b)

    conclude-kept :
        (p : Progress S)
        → (is_truthy p.failure && or_else o.rollback_on_failure false && not is_dry) ≡ false
        → conclude plan s o p
          ≡ finish plan s is_dry p p.state (if is_truthy p.failure then failed else completed) none
    unfolding conclude
    conclude-kept p h = rw (h, conclude) refl

    conclude-undone :
        (p : Progress S) (out : RollbackOutcome S)
        → (is_truthy p.failure && or_else o.rollback_on_failure false && not is_dry) ≡ true
        → rollback (context_of plan o) p.completed_steps p.state ≡ out
        → conclude plan s o p
          ≡ finish plan s is_dry p out.state
              (if out.all_rolled_back then rolled_back else failed)
              (some out.results)
    unfolding conclude
    conclude-undone p out h e = rw (h, e, conclude) refl

    -- Where every step of the plan takes the state on, `run` completes with the last state, or with the
    -- first one in a dry run, and reports each step as succeeded.
    pub run-completed :
        (t : S)
        → Takes s plan.steps t
        → let r = run v plan s o in
          (r.state ≡ (if is_dry then s else t))
          × (r.report.status ≡ completed)
          × (r.report.succeeded_steps ≡ length plan.steps)
          × (r.report.failed_steps ≡ 0)
    unfolding conclude completed_progress
    run-completed t runs =
        subst
          (λ r.
            (r.state ≡ (if is_dry then s else t))
            × (r.report.status ≡ completed)
            × (r.report.succeeded_steps ≡ length plan.steps)
            × (r.report.failed_steps ≡ 0))
          (sym (run-forward ∙ ap (λ p. conclude plan s o p) (forward-completed t runs)))
          (refl, refl, (all_succeeded plan.steps).0, (all_succeeded plan.steps).1)

    -- Where a step throws and no rollback is wanted, the steps before it are reported as succeeded, it as
    -- failed, and the later ones not at all. The state is the last one that was reached, or the first one in
    -- a dry run. The run is reported as failed only if what was thrown is truthy, otherwise as completed.
    pub run-failed :
        (xs rest : List (Step S)) (bad : Step S) (t : S) (e : Thrown)
        → plan.steps ≡ xs ++ bad ∷ rest
        → Takes s xs t
        → tries bad t ≡ err e
        → (or_else o.rollback_on_failure false && not is_dry) ≡ false
        → let r = run v plan s o in
          (r.state ≡ (if is_dry then s else t))
          × (r.report.status ≡ (if is_truthy (some e) then failed else completed))
          × (r.report.succeeded_steps ≡ length xs)
          × (r.report.failed_steps ≡ 1)
          × (r.report.rollback_steps ≡ none)
    unfolding finish failed_progress
    run-failed xs rest bad t e split runs threw kept =
        subst
          (λ r.
            (r.state ≡ (if is_dry then s else t))
            × (r.report.status ≡ (if is_truthy (some e) then failed else completed))
            × (r.report.succeeded_steps ≡ length xs)
            × (r.report.failed_steps ≡ 1)
            × (r.report.rollback_steps ≡ none))
          (sym (
            run-forward
            ∙ ap (λ p. conclude plan s o p) (forward-failed xs rest bad t e split runs threw)
            ∙ conclude-kept (failed_progress xs t bad e) (ground (arith, kept))))
          (refl, refl, (counts xs bad e).0, (counts xs bad e).1, refl)

    rollback-Takes :
        (xs : List (Step S)) (t : S)
        → Takes s xs t
        → All (IsUndone (context_of plan o)) xs
        → rollback (context_of plan o) xs t ≡ record {
          state = s;
          results = undone_all (backwards xs);
          all_rolled_back = not (is_empty xs);
        }
    unfolding rollback
    rollback-Takes xs t runs undoes =
        undo_all-Runs v plan.contract_id validating (context_of plan o) xs s t []
          (not (is_empty xs)) runs undoes

    by_empty :
        (xs : List (Step S))
        → (if not (is_empty xs) then rolled_back else failed)
          ≡ (if is_empty xs then failed else rolled_back)
    by_empty [] = refl
    by_empty (x ∷ xs) = refl

    -- Where a step throws a truthy value, a rollback is wanted, and the rollbacks of the steps before it take
    -- back what they did, the state is the one from before the run. They are undone in the opposite order,
    -- and the run is reported as rolled back, unless no step was taken.
    pub run-restores :
        (xs rest : List (Step S)) (bad : Step S) (t : S) (e : Thrown)
        → plan.steps ≡ xs ++ bad ∷ rest
        → Takes s xs t
        → tries bad t ≡ err e
        → is_truthy (some e) ≡ true
        → or_else o.rollback_on_failure false ≡ true
        → is_dry ≡ false
        → All (IsUndone (context_of plan o)) xs
        → let r = run v plan s o in
          (r.state ≡ s)
          × (r.report.status ≡ (if is_empty xs then failed else rolled_back))
          × (r.report.failed_steps ≡ 1)
          × (r.report.rollback_steps ≡ some (undone_all (backwards xs)))
    unfolding finish failed_progress
    run-restores xs rest bad t e split runs threw truthy wanted wet undoes =
        subst
          (λ r.
            (r.state ≡ s)
            × (r.report.status ≡ (if is_empty xs then failed else rolled_back))
            × (r.report.failed_steps ≡ 1)
            × (r.report.rollback_steps ≡ some (undone_all (backwards xs))))
          (sym (
            run-forward
            ∙ ap (λ p. conclude plan s o p) (forward-failed xs rest bad t e split runs threw)
            ∙ conclude-undone (failed_progress xs t bad e) _ (ground (arith, truthy, wanted, wet))
                (rollback-Takes xs t runs undoes)))
          (ap (λ b. if b then s else s) wet, by_empty xs, (counts xs bad e).1, refl)
