-- ===== src/Session/Tests.antt =====
-- A manager of at most two sessions (src/session), run on concrete calls.
use axionvera_sdk.Prelude.{
  ℕ, zero, suc, ◌≡◌, refl, String, Option, none, some, List, [], ◌∷◌, err, length, map,
}
use axionvera_sdk.Prelude.Dict.{get, set, delete}
use axionvera_sdk.Session.Contracts.{
  Status, active, suspended, closed, Client, RegisterParams, SessionConfig, Session, Error,
  is_suspended, session_exists, limit_reached, already_registered, empty_name, trim, trim_end,
  trim_start, assert_not_closed, assert_active, register_contract, unregister_contract, suspend,
  resume, close, register_all, session_with, initial,
}
use axionvera_sdk.Session.Contracts
use axionvera_sdk.Session.Manager.{
  ManagerConfig, Manager, new_manager, made, create_session, make_session, add_session,
  close_session, close_all, find_by_contract,
}
use axionvera_sdk.Session.Acts.{registers, suspends, resumes, closes, act, act_all, act_all-closed}
use axionvera_sdk.Session.Histories.{
  Call, creates, acts, act_on, after_call, after_calls, IsOrdered, after_calls-new_manager,
}

-- What the tests compute with.
unfoldable sessions_open : Unit {0}
unfolding get set delete trim_end trim_start assert_not_closed assert_active register_contract
    unregister_contract suspend resume close register_all session_with new_manager create_session
    make_session add_session close_session close_all find_by_contract act act_all act_on after_call
    after_calls Contracts.run
sessions_open = tt

abbrev named : ℕ → String
named zero = "session-0"
named (suc zero) = "session-1"
named (suc (suc n)) = "session-2"

abbrev params : String → String → RegisterParams
params name id = record { name = name; contract_id = id; instance_of = none; metadata = none }

abbrev config : Option String → SessionConfig
config id = record {
  id = id;
  client = none;
  wallet = none;
  contracts = some (params " vault " "C1" ∷ []);
  metadata = none;
}

abbrev settings : ManagerConfig
settings = record {
  client = some (record { handle = 1; network = "testnet" });
  wallet = none;
  max_sessions = some 2;
}

abbrev calls : List Call
calls =
    creates 5 (config none)
    ∷ creates 6 (config (some " mine "))
    ∷ acts "mine" (registers 7 (params "rewards" "C2"))
    ∷ acts "mine" (suspends 8)
    ∷ []

abbrev manager : Manager
manager = after_calls named calls (made 0 settings)

ids : map (λ e. e.0) manager.sessions ≡ "session-1" ∷ "mine" ∷ []
unfolding sessions_open
ids = refl

full : (create_session named 9 (config none) manager).1 ≡ err (limit_reached (some 2))
unfolding sessions_open
full = refl

found : map (λ s. s.id) (find_by_contract "C2" manager) ≡ "mine" ∷ []
unfolding sessions_open
found = refl

-- A session that its client closes stays in the manager, and counts.
counted : length (after_calls named (acts "mine" (closes 9) ∷ []) manager).sessions ≡ 2
unfolding sessions_open
counted = refl

abbrev session : Session
session = initial named 1 "s" (record { handle = 1; network = "testnet" }) (config none)

suspended_rejects : Contracts.run (λ s. s.id) (act (suspends 3) session) ≡ err (is_suspended "s")
unfolding sessions_open
suspended_rejects = refl

act_all-closed_example :
    act_all (resumes 5 ∷ registers 6 (params "vault" "C1") ∷ []) (act (closes 4) session)
    ≡ act (closes 4) session
unfolding sessions_open
act_all-closed_example =
    act_all-closed (resumes 5 ∷ registers 6 (params "vault" "C1") ∷ []) (act (closes 4) session)
      refl

after_calls-new_manager_example : IsOrdered (after_calls named calls (made 0 settings))
unfolding sessions_open
after_calls-new_manager_example =
    after_calls-new_manager named 0 settings (made 0 settings) calls refl
