-- ===== src/Migration/Runner.antt =====
-- src/migrations/migrationRunner.ts: MigrationRunner. The constructor's registry and validator are
-- arguments.
use axionvera_sdk.Prelude.{
  String, Bool, true, false, not, ◌&&◌, Option, none, some, List, [], ◌∷◌, ◌++◌, keep, length,
  is_empty, if◌then◌else◌, or_else, Outcome, ok, err, ◌>>=◌,
}
use axionvera_sdk.Migration.Types.{
  ErrorInfo, Thrown, error, other, Status, completed, failed, rolled_back, StepStatus,
  step_succeeded, step_failed, Context, Step, Plan, StepResult, RunOptions, RunResult,
}
use axionvera_sdk.Migration.Registry.{Registry, PathNotFound, resolve_path}
use axionvera_sdk.Migration.Validator.{Validator, validate_state}

unfoldable pub to_error_info : Thrown → ErrorInfo
to_error_info (error e) = e
to_error_info (other truthy s) = record { name = "Error"; message = s }

-- `failure` as a condition.
unfoldable pub is_truthy : Option Thrown → Bool
is_truthy none = false
is_truthy (some (error e)) = true
is_truthy (some (other truthy s)) = truthy

unfoldable pub is_success : StepResult → Bool
is_success r = elim r.status [ step_succeeded ↦ true | step_failed ↦ false ]

pub record Progress (S : Type 0) : Type 0 where
  pub state : S
  pub results : List StepResult
  pub completed_steps : List (Step S)
  pub failure : Option Thrown

pub record RollbackOutcome (S : Type 0) : Type 0 where
  pub state : S
  pub results : List StepResult
  pub all_rolled_back : Bool

unfoldable pub backwards {ℓ} : {A : Type ℓ} → List A → List A
backwards [] = []
backwards (x ∷ xs) = backwards xs ++ x ∷ []

module _ {S : Type 0} where
  abbrev pub succeeded : Step S → StepResult
  succeeded step = record {
    step_id = step.id;
    from_version = step.from_version;
    to_version = step.to_version;
    status = step_succeeded;
    error = none;
  }

  abbrev pub failed_with : Step S → Thrown → StepResult
  failed_with step e = record {
    step_id = step.id;
    from_version = step.from_version;
    to_version = step.to_version;
    status = step_failed;
    error = some (to_error_info e);
  }

  -- `results` of a rollback, from the later version to the earlier one.
  abbrev pub undone : Step S → Option ErrorInfo → StepStatus → StepResult
  undone step e status = record {
    step_id = step.id;
    from_version = step.to_version;
    to_version = step.from_version;
    status = status;
    error = e;
  }

  -- One round of the loop of `rollback`.
  unfoldable pub undo_step : Context → RollbackOutcome S → Step S → RollbackOutcome S
  unfolding to_error_info
  undo_step c o step = elim step.rollback [
    | none ↦ record o { all_rolled_back = false }
    | some rollback ↦ elim (rollback o.state c) [
      | ok s ↦ record o { state = s; results = o.results ++ undone step none step_succeeded ∷ [] }
      | err e ↦ record o {
        results = o.results ++ undone step (some (to_error_info e)) step_failed ∷ [];
        all_rolled_back = false;
      }
    ]
  ]

  unfoldable pub undo_all : Context → RollbackOutcome S → List (Step S) → RollbackOutcome S
  undo_all c o [] = o
  undo_all c o (step ∷ steps) = undo_all c (undo_step c o step) steps

  unfoldable pub rollback : Context → List (Step S) → S → RollbackOutcome S
  rollback c steps s =
      undo_all c (record { state = s; results = []; all_rolled_back = not (is_empty steps) })
        (backwards steps)

  module _ (validator : Validator S) (contract : String) (validating : Bool) (c : Context) where
    unfoldable pub check : String → S → Outcome Thrown S
    check version s = if validating then validate_state validator contract version s else ok s

    -- The body of the `try`: the new state.
    unfoldable pub attempt : Step S → S → Outcome Thrown S
    unfolding check
    attempt step s = do
      _ ← check step.from_version s
      next ← step.migrate s c
      _ ← check step.to_version next
      ok next

    -- The loop over the steps of the plan.
    unfoldable pub forward : Progress S → List (Step S) → Progress S
    forward p [] = p
    forward p (step ∷ steps) = elim (attempt step p.state) [
      | ok next ↦
          forward
            (record p {
              state = next;
              results = p.results ++ succeeded step ∷ [];
              completed_steps = p.completed_steps ++ step ∷ [];
            })
            steps
      | err e ↦ record p { results = p.results ++ failed_with step e ∷ []; failure = some e }
    ]

  abbrev pub context_of : Plan S → RunOptions → Context
  context_of plan o = record {
    contract_id = plan.contract_id;
    dry_run = or_else o.dry_run false;
    metadata = o.metadata;
  }

  -- What `run` returns, from the state, the status and the rollback.
  unfoldable pub finish :
      Plan S → S → Bool → Progress S → S → Status → Option (List StepResult) → RunResult S
  unfolding is_success
  finish plan initial dry p state status undone_steps = record {
    state = if dry then initial else state;
    report = record {
      contract_id = plan.contract_id;
      from_version = plan.from_version;
      to_version = plan.to_version;
      status = status;
      dry_run = dry;
      total_steps = length plan.steps;
      succeeded_steps = length (keep (λ r. is_success r) p.results);
      failed_steps = length (keep (λ r. not (is_success r)) p.results);
      steps = p.results;
      rollback_steps = undone_steps;
    };
  }

  -- `run` after its loop.
  unfoldable pub conclude : Plan S → S → RunOptions → Progress S → RunResult S
  unfolding finish is_truthy rollback
  conclude plan initial o p =
      let dry = or_else o.dry_run false in
      let out = rollback (context_of plan o) p.completed_steps p.state in
      if is_truthy p.failure && or_else o.rollback_on_failure false && not dry
      then finish plan initial dry p out.state (if out.all_rolled_back then rolled_back else failed)
          (some out.results)
      else finish plan initial dry p p.state (if is_truthy p.failure then failed else completed)
          none

  abbrev pub initial_progress : S → Progress S
  initial_progress s = record { state = s; results = []; completed_steps = []; failure = none }

  unfoldable pub run : Validator S → Plan S → S → RunOptions → RunResult S
  unfolding conclude forward
  run v plan s o = conclude plan s o (
      forward v plan.contract_id (or_else o.validate_state true) (context_of plan o)
        (initial_progress s) plan.steps)

  -- `none` only if the search for a path ran out of fuel, which it does not.
  unfoldable pub migrate :
      Registry S
      → Validator S
      → String
      → S
      → String
      → String
      → RunOptions
      → Option (Outcome PathNotFound (RunResult S))
  migrate m v contract s from to o = elim (resolve_path m contract from to) [
    | none ↦ none
    | some (err e) ↦ some (err e)
    | some (ok plan) ↦ some (ok (run v plan s o))
  ]
