-- ===== src/Lifecycle/Tests.antt =====
-- Runs of the lifecycle manager on concrete calls (src/transactions/transactionLifecycleManager.ts).
use axionvera_sdk.Prelude.{
  ℕ, String, ◌≤◌, ◌≡◌, refl, ◌⊎◌, ◌≢◌, true, Option, none, some, List, [], ◌∷◌, ok, err, length,
  str_eq, if◌then◌else◌,
}
use axionvera_sdk.Prelude.Dict.{Dict, get, set, delete}
use axionvera_sdk.Lifecycle.State.{
  State, created, simulating, simulated, signing, failed, not_tracked, invalid_transition,
  is_terminal, State-discrete, assert_transition,
}
use axionvera_sdk.Lifecycle.Events.{Value, other, was_failed}
use axionvera_sdk.Lifecycle.Manager.{
  Tracked, Manager, advance, create, transition, fail, new_manager, spread, failure_of, record_move,
  remove, on_event, Reply,
}
use axionvera_sdk.Lifecycle.Notice.{IsLegal, IsMoved, Reports, AreTold}
use axionvera_sdk.Lifecycle.Query.{Query, list, selected}
use axionvera_sdk.Lifecycle.Calls.{Call, creates, moves, fails, subscribes, step, run}
use axionvera_sdk.Lifecycle.Trace.{visited, route_to}
use axionvera_sdk.Lifecycle.History.{run-history}
use axionvera_sdk.Lifecycle.Frame.{run-keeps_terminal, transition_cases}

manager : Unit {0}
unfolding run step create transition fail remove on_event advance get set delete State-discrete
    assert_transition spread failure_of is_terminal list selected route_to
manager = tt

-- A transaction that is signed and then fails, and another that is only created.
abbrev failing : List Call
failing =
    creates (some "t1") [] "" 1
    ∷ creates none [] "t2" 2
    ∷ moves "t1" simulating none 3
    ∷ moves "t1" signing none 4
    ∷ fails "t1" (other "boom") none 5
    ∷ []

abbrev entry :
    Option State → State → ℕ → Option (Dict Value) → axionvera_sdk.Lifecycle.Manager.Transition
entry from to now details = record { from = from; to = to; timestamp = now; details = details }

abbrev boom : Dict Value
boom = ("error", other "boom") ∷ []

abbrev dead : Tracked
dead = record {
  id = "t1";
  state = failed;
  created_at = 1;
  updated_at = 5;
  history =
      entry none created 1 none
      ∷ entry (some created) simulating 3 none
      ∷ entry (some simulating) failed 5 (some boom)
      ∷ [];
  metadata = boom;
  error = some (record { name = "Error"; message = "boom" });
}

abbrev fresh : Tracked
fresh = record {
  id = "t2";
  state = created;
  created_at = 2;
  updated_at = 2;
  history = entry none created 2 none ∷ [];
  metadata = [];
  error = none;
}

-- The move to `signing` is illegal and is passed over.
failing-run : get "t1" (run new_manager failing).records ≡ some dead
unfolding manager
failing-run = refl

fresh-run : get "t2" (run new_manager failing).records ≡ some fresh
unfolding manager
fresh-run = refl

run-history_example :
    (length dead.history ≤ 11) × (failed ≢ failed → visited dead.history ≡ route_to failed)
run-history_example = run-history failing "t1" dead failing-run

run-keeps_terminal_example :
    get "t1"
      (run
        (run new_manager failing)
        (moves "t1" signing none 9 ∷ creates (some "t1") [] "" 9 ∷ [])).records
    ≡ some dead
unfolding manager
run-keeps_terminal_example =
    run-keeps_terminal (run new_manager failing) "t1" dead
      (moves "t1" signing none 9 ∷ creates (some "t1") [] "" 9 ∷ []) ((λ h. h), ((λ h. h), tt)) refl
      failing-run

-- A transaction that is simulated, and two listeners, one of them for failures only.
abbrev heard : Manager
heard = run new_manager (
    creates (some "t1") [] "" 1
    ∷ moves "t1" simulating none 2
    ∷ subscribes none
    ∷ subscribes (some (record { transaction_id = none; types = some (was_failed ∷ []) }))
    ∷ [])

transition_cases_example :
    ((get "t1" heard.records ≡ none)
      × (transition heard "t1" failed none 3 ≡ err (not_tracked "t1")))
    ⊎ (((r : Tracked) × (get "t1" heard.records ≡ some r)
          × (¬ IsLegal r.state failed)
          × (transition heard "t1" failed none 3 ≡ err (invalid_transition r.state failed)))
        ⊎ ((r : Tracked) × (reply : Reply) × (get "t1" heard.records ≡ some r)
            × IsLegal r.state failed
            × (transition heard "t1" failed none 3 ≡ ok reply)
            × IsMoved r failed none 3 reply.tracked
            × (reply.manager.emitter ≡ heard.emitter)
            × ((j : String)
                → get j reply.manager.records
                  ≡ (if str_eq "t1" j then some reply.tracked else get j heard.records))
            × Reports "t1" r reply.tracked failed none 3 reply.event
            × AreTold reply.event heard.emitter.listeners reply.called))
transition_cases_example = transition_cases heard "t1" failed none 3

-- A failure reaches both listeners, the step to `simulated` only the first one.
called_for : State → List ℕ
unfolding transition
called_for to = elim (transition heard "t1" to none 3) [ err _ ↦ [] | ok reply ↦ reply.called ]

told_both : (called_for failed ≡ 1 ∷ 2 ∷ []) × (called_for simulated ≡ 1 ∷ [])
unfolding manager called_for
told_both = (refl, refl)

abbrev finals : Query
finals = record { state = none; terminal_only = true }

list-run : list (run new_manager failing) finals ≡ dead ∷ []
unfolding manager
list-run = refl
