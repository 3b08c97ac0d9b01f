-- ===== src/Lifecycle/Query.antt =====
-- What TransactionLifecycleManager answers (src/transactions/transactionLifecycleManager.ts).
use axionvera_sdk.Prelude.{
  String, Bool, true, false, not, ◌&&◌, Option, none, some, List, Outcome, ok, ◌>>=◌, or_throw,
  if◌then◌else◌, keep,
}
use axionvera_sdk.Prelude.Dict.{get, has, values}
use axionvera_sdk.Lifecycle.State.{State, Error, not_tracked, same_state, is_terminal}
use axionvera_sdk.Lifecycle.Manager.{Manager, Tracked, Transition}

unfoldable pub require_record : Manager → String → Outcome Error Tracked
require_record m id = or_throw (get id m.records) (not_tracked id)

unfoldable pub get_status : Manager → String → Outcome Error State
unfolding require_record
get_status m id = do r ← require_record m id; ok r.state

unfoldable pub get_history : Manager → String → Outcome Error (List Transition)
unfolding require_record
get_history m id = do r ← require_record m id; ok r.history

unfoldable pub is_terminal_id : Manager → String → Outcome Error Bool
unfolding require_record is_terminal
is_terminal_id m id = do r ← require_record m id; ok (is_terminal r.state)

unfoldable pub has_record : Manager → String → Bool
has_record m id = has id m.records

pub record Query : Type 0 where
  pub state : Option State
  pub terminal_only : Bool

-- One round of the loop of `list`: neither `continue` is taken.
unfoldable pub selected : Query → Tracked → Bool
unfolding is_terminal
selected q r =
    if elim q.state [ none ↦ false | some s ↦ not (same_state r.state s) ]
    then false
    else if q.terminal_only && not (is_terminal r.state)
    then false
    else true

unfoldable pub list : Manager → Query → List Tracked
unfolding selected
list m q = keep (selected q) (values m.records)
