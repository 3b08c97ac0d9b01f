-- ===== src/Migration/Tests.antt =====
-- Migrations of a number (src/migrations/).
use axionvera_sdk.Prelude.{
  ℕ, ◌+◌, ◌-◌, ◌≡◌, refl, ◌⊎◌, String, true, false, none, some, List, [], ◌∷◌, ok, err, arith,
}
use axionvera_sdk.Prelude.Dict.{get, set}
use axionvera_sdk.Migration.Types.{
  Thrown, error, other, completed, failed, rolled_back, Context, Step, Plan, RunOptions,
}
use axionvera_sdk.Migration.Registry.{
  Registry, register, list_steps, resolve_path, search, scan, edges_by_from, add_edge,
}
use axionvera_sdk.Migration.Validator.{validate_state}
use axionvera_sdk.Migration.Runner.{
  is_truthy, backwards, check, attempt, forward, run, conclude, finish, rollback, undo_all,
  undo_step, to_error_info, is_success,
}
use axionvera_sdk.Migration.Undo.{IsUndone, undone_all}
use axionvera_sdk.Migration.Resolve.{Connects, plan_of, no_path, resolve_path_cases}
use axionvera_sdk.Migration.Outcomes.{run-completed, run-failed, run-restores}

migrations : Unit {0}
unfolding get set register list_steps resolve_path search scan edges_by_from add_edge validate_state
    backwards check attempt forward run conclude finish rollback undo_all undo_step to_error_info
    is_success is_truthy
migrations = tt

-- Adds one, and takes it back.
abbrev up : String → String → Step ℕ
up from to = record {
  id = from;
  from_version = from;
  to_version = to;
  description = none;
  migrate = λ s c. ok (s + 1);
  rollback = some (λ s c. ok (s - 1));
}

abbrev broken : Thrown → Step ℕ
broken e = record {
  id = "broken";
  from_version = "v3";
  to_version = "v4";
  description = none;
  migrate = λ s c. err e;
  rollback = none;
}

abbrev bad : Thrown
bad = error (record { name = "Error"; message = "bad" })

abbrev registry : Registry ℕ
registry =
    register (register (register [] "Vault" (up "v1" "v2")) "Vault" (up "v2" "v3")) "Vault"
      (up "v3" "v1")

abbrev options : RunOptions
options = record {
  dry_run = none;
  rollback_on_failure = some true;
  validate_state = none;
  metadata = none;
}

abbrev keeping : RunOptions
keeping = record options { rollback_on_failure = none }

abbrev two : Plan ℕ
two = plan_of registry "Vault" "v1" "v3" (up "v1" "v2" ∷ up "v2" "v3" ∷ [])

abbrev breaks : Thrown → Plan ℕ
breaks e = record two { steps = up "v1" "v2" ∷ up "v2" "v3" ∷ broken e ∷ [] }

two_resolved :
    (resolve_path registry "Vault" "v1" "v3" ≡ some (ok two))
    × (resolve_path registry "Vault" "v1" "v9" ≡ some (err (no_path registry "Vault" "v1" "v9")))
unfolding migrations
two_resolved = (refl, refl)

-- A step that throws a falsy value is reported as failed, and the run as completed.
falsy_completes :
    ((run [] (breaks (other false "0")) 5 keeping).report.status ≡ completed)
    × ((run [] (breaks (other false "0")) 5 keeping).report.failed_steps ≡ 1)
unfolding migrations
falsy_completes = (refl, refl)

resolve_path_cases_example :
    ((p : List (Step ℕ)) × (resolve_path registry "Vault" "v1" "v3"
        ≡ some (ok (plan_of registry "Vault" "v1" "v3" p)))
      × Connects registry "Vault" "v1" "v3" p)
    ⊎ ((resolve_path registry "Vault" "v1" "v3" ≡ some (err (no_path registry "Vault" "v1" "v3")))
        × ((p : List (Step ℕ)) → ¬ Connects registry "Vault" "v1" "v3" p))
resolve_path_cases_example = resolve_path_cases registry "Vault" "v1" "v3"

run-completed_example :
    let r = run [] two 5 options in
    (r.state ≡ 7)
    × (r.report.status ≡ completed)
    × (r.report.succeeded_steps ≡ 2)
    × (r.report.failed_steps ≡ 0)
unfolding migrations
run-completed_example = run-completed [] two 5 options 7 (6, refl, (7, refl, refl))

run-failed_example :
    let r = run [] (breaks bad) 5 keeping in
    (r.state ≡ 7)
    × (r.report.status ≡ failed)
    × (r.report.succeeded_steps ≡ 2)
    × (r.report.failed_steps ≡ 1)
    × (r.report.rollback_steps ≡ none)
unfolding migrations
run-failed_example =
    run-failed [] (breaks bad) 5 keeping (up "v1" "v2" ∷ up "v2" "v3" ∷ []) [] (broken bad) 7 bad
      refl (6, refl, (7, refl, refl)) refl refl

up-IsUndone : (from to : String) (c : Context) → IsUndone c (up from to)
up-IsUndone from to c = record {
  back = λ s c. ok (s - 1);
  has = refl;
  inverse = λ s t e. ground (arith, e);
}

run-restores_example :
    let r = run [] (breaks bad) 5 options in
    (r.state ≡ 5)
    × (r.report.status ≡ rolled_back)
    × (r.report.failed_steps ≡ 1)
    × (r.report.rollback_steps ≡ some (undone_all (backwards (up "v1" "v2" ∷ up "v2" "v3" ∷ []))))
unfolding migrations
run-restores_example =
    run-restores [] (breaks bad) 5 options (up "v1" "v2" ∷ up "v2" "v3" ∷ []) [] (broken bad) 7 bad
      refl (6, refl, (7, refl, refl)) refl refl refl refl
      (up-IsUndone "v1" "v2" _, (up-IsUndone "v2" "v3" _, tt))
