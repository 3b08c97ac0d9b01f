-- ===== src/Lifecycle/Manager.antt =====
-- src/transactions/transactionLifecycleManager.ts and types.ts. Time is an argument of each call, and
-- so is the id that `uid()` would give. Results are new records, so `cloneRecord` is the identity.
use axionvera_sdk.Prelude.{
  ℕ, String, Bool, Option, none, some, List, [], ◌∷◌, ◌++◌, Outcome, ok, err, ◌>>=◌, or_throw,
  if◌then◌else◌, or_else,
}
use axionvera_sdk.Prelude.Dict.{Dict, get, set, delete, has}
use axionvera_sdk.Lifecycle.State.{
  State, created, simulating, simulated, signing, signed, submitting, submitted, confirming,
  confirmed, completed, failed, Error, not_tracked, already_tracked, assert_transition,
}
use axionvera_sdk.Lifecycle.Events.{
  ErrorInfo, Value, thrown, undef, other, EventType, was_created, moved, was_completed, was_failed,
  Emitter, Filter, LifecycleEvent, emit, subscribe, unsubscribe, new_emitter,
}

pub record Transition : Type 0 where
  pub from : Option State
  pub to : State
  pub timestamp : ℕ
  pub details : Option (Dict Value)

pub record Tracked : Type 0 where
  pub id : String
  pub state : State
  pub created_at : ℕ
  pub updated_at : ℕ
  pub history : List Transition
  pub metadata : Dict Value
  pub error : Option ErrorInfo

pub record Manager : Type 0 where
  pub records : Dict Tracked
  pub emitter : Emitter

-- What a call gives back: the new state, the record, the event emitted and the listeners called.
pub record Reply : Type 0 where
  pub manager : Manager
  pub tracked : Tracked
  pub event : LifecycleEvent
  pub called : List ℕ

abbrev pub new_manager : Manager
new_manager = record { records = []; emitter = new_emitter }

-- `{ ...base, ...extra }`
unfoldable pub spread : Dict Value → Dict Value → Dict Value
spread base [] = base
spread base ((k, v) ∷ extra) = spread (set k v base) extra

unfoldable pub to_error_info : Value → ErrorInfo
to_error_info (thrown e) = e
to_error_info undef = record { name = "Error"; message = "undefined" }
to_error_info (other s) = record { name = "Error"; message = s }

unfoldable pub create : Manager → Option String → Dict Value → String → ℕ → Outcome Error Reply
unfolding emit
create m wanted metadata fresh now =
    let id : String = or_else wanted fresh in
    let entry : Transition = record {
      from = none;
      to = created;
      timestamp = now;
      details = none;
    } in
    let r : Tracked = record {
      id = id;
      state = created;
      created_at = now;
      updated_at = now;
      history = entry ∷ [];
      metadata = metadata;
      error = none;
    } in
    let ev : LifecycleEvent = record {
      type = was_created;
      transaction_id = id;
      previous_state = none;
      state = created;
      timestamp = now;
      details = none;
      error = none;
    } in
    if has id m.records
    then err (already_tracked id)
    else ok (record {
      manager = record m { records = set id r m.records };
      tracked = r;
      event = ev;
      called = (emit m.emitter ev).0;
    })

-- `to === FAILED && details?.error !== undefined`
unfoldable pub failure_of : State → Option (Dict Value) → Option ErrorInfo
unfolding to_error_info
failure_of failed (some d) = elim (get "error" d) [
  | none ↦ none
  | some v ↦ elim v [
    | undef ↦ none
    | thrown e ↦ some (to_error_info (thrown e))
    | other s ↦ some (to_error_info (other s))
  ]
]
failure_of _ _ = none

unfoldable pub event_type : State → EventType
event_type failed = was_failed
event_type completed = was_completed
event_type _ = moved

-- The record after a legal move.
unfoldable pub advance : Tracked → State → Option (Dict Value) → ℕ → Tracked
unfolding failure_of spread
advance r to details now = record r {
  state = to;
  updated_at = now;
  history =
      r.history ++ record { from = some r.state; to = to; timestamp = now; details = details } ∷ [];
  metadata = spread r.metadata (or_else details []);
  error = elim (failure_of to details) [ none ↦ r.error | some e ↦ some e ];
}

-- The second half of `transition`, after its checks: the write and the event.
unfoldable pub record_move : Manager → String → Tracked → State → Option (Dict Value) → ℕ → Reply
unfolding advance event_type emit
record_move m id r to details now =
    let r' : Tracked = advance r to details now in
    let ev : LifecycleEvent = record {
      type = event_type to;
      transaction_id = id;
      previous_state = some r.state;
      state = to;
      timestamp = now;
      details = details;
      error = r'.error;
    } in
    record {
      manager = record m { records = set id r' m.records };
      tracked = r';
      event = ev;
      called = (emit m.emitter ev).0;
    }

unfoldable pub transition : Manager → String → State → Option (Dict Value) → ℕ → Outcome Error Reply
unfolding record_move
transition m id to details now = do
  r ← or_throw (get id m.records) (not_tracked id)
  _ ← assert_transition r.state to
  ok (record_move m id r to details now)

unfoldable pub mark_simulating : Manager → String → Option (Dict Value) → ℕ → Outcome Error Reply
mark_simulating m id details now = transition m id simulating details now

unfoldable pub mark_simulated : Manager → String → Option (Dict Value) → ℕ → Outcome Error Reply
mark_simulated m id details now = transition m id simulated details now

unfoldable pub mark_signing : Manager → String → Option (Dict Value) → ℕ → Outcome Error Reply
mark_signing m id details now = transition m id signing details now

unfoldable pub mark_signed : Manager → String → Option (Dict Value) → ℕ → Outcome Error Reply
mark_signed m id details now = transition m id signed details now

unfoldable pub mark_submitting : Manager → String → Option (Dict Value) → ℕ → Outcome Error Reply
mark_submitting m id details now = transition m id submitting details now

unfoldable pub mark_submitted : Manager → String → Option (Dict Value) → ℕ → Outcome Error Reply
mark_submitted m id details now = transition m id submitted details now

unfoldable pub mark_confirming : Manager → String → Option (Dict Value) → ℕ → Outcome Error Reply
mark_confirming m id details now = transition m id confirming details now

unfoldable pub mark_confirmed : Manager → String → Option (Dict Value) → ℕ → Outcome Error Reply
mark_confirmed m id details now = transition m id confirmed details now

unfoldable pub mark_completed : Manager → String → Option (Dict Value) → ℕ → Outcome Error Reply
mark_completed m id details now = transition m id completed details now

-- `transition(id, FAILED, { ...details, error })`
unfoldable pub fail : Manager → String → Value → Option (Dict Value) → ℕ → Outcome Error Reply
fail m id error details now =
    transition m id failed (some (set "error" error (or_else details []))) now

unfoldable pub remove : Manager → String → Manager × Bool
remove m id = (record m { records = delete id m.records }, has id m.records)

unfoldable pub clear : Manager → Manager
clear m = record m { records = [] }

unfoldable pub on_event : Manager → Option Filter → Manager × ℕ
unfolding subscribe
on_event m f = let (e, n) = subscribe m.emitter f in (record m { emitter = e }, n)

unfoldable pub off_event : Manager → ℕ → Manager × Bool
unfolding unsubscribe
off_event m n = let (e, b) = unsubscribe m.emitter n in (record m { emitter = e }, b)
