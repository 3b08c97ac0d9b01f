-- ===== src/Lifecycle/Calls.antt =====
-- Sequences of calls of TransactionLifecycleManager (src/transactions/transactionLifecycleManager.ts).
use axionvera_sdk.Prelude.{ℕ, String, Option, List, [], ◌∷◌, Outcome, ok, err}
use axionvera_sdk.Prelude.Dict.{Dict}
use axionvera_sdk.Lifecycle.State.{State, Error}
use axionvera_sdk.Lifecycle.Events.{Value, Filter}
use axionvera_sdk.Lifecycle.Manager.{
  Manager, Reply, clear, create, fail, off_event, on_event, remove, transition,
}

-- The calls that may change the manager.
pub data Call : Type 0 where
  creates : Option String → Dict Value → String → ℕ → Call
  moves : String → State → Option (Dict Value) → ℕ → Call
  fails : String → Value → Option (Dict Value) → ℕ → Call
  removes : String → Call
  clears : Call
  subscribes : Option Filter → Call
  unsubscribes : ℕ → Call

-- A call that throws leaves the manager as it was.
unfoldable pub after : Manager → Outcome Error Reply → Manager
after m (ok reply) = reply.manager
after m (err e) = m

unfoldable pub step : Manager → Call → Manager
unfolding after
step m (creates wanted metadata fresh now) = after m (create m wanted metadata fresh now)
step m (moves id to details now) = after m (transition m id to details now)
step m (fails id error details now) = after m (fail m id error details now)
step m (removes id) = (remove m id).0
step m clears = clear m
step m (subscribes f) = (on_event m f).0
step m (unsubscribes n) = (off_event m n).0

unfoldable pub run : Manager → List Call → Manager
run m [] = m
run m (c ∷ cs) = run (step m c) cs
