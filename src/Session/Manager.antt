-- ===== src/Session/Manager.antt =====
-- src/session/sessionManager.ts: SessionManager. The sessions that it has are a part of its state, also for calls of
-- a client on one of them; `counter` is the module's counter of generated ids, and no `max_sessions` is no limit.
use axionvera_sdk.Prelude.{
  ℕ, suc, zero, String, Bool, true, false, Option, none, some, List, [], map, any, keep, length,
  Outcome, ok, err, if◌then◌else◌, or_else, str_eq, leb,
}
use axionvera_sdk.Prelude.Dict.{Dict, get, set, delete, has, values}
use axionvera_sdk.Session.Contracts.{
  Client, SessionConfig, Session, Error, no_client, not_positive, session_exists, no_session,
  limit_reached, close, new_session, list_contracts,
}

pub record ManagerConfig : Type 0 where
  pub client : Option Client
  pub wallet : Option ℕ
  pub max_sessions : Option ℕ

pub record Manager : Type 0 where
  pub sessions : Dict Session
  pub default_client : Option Client
  pub default_wallet : Option ℕ
  pub max_sessions : Option ℕ
  pub counter : ℕ

abbrev pub made : ℕ → ManagerConfig → Manager
made counter c = record {
  sessions = [];
  default_client = c.client;
  default_wallet = c.wallet;
  max_sessions = c.max_sessions;
  counter = counter;
}

abbrev pub is_zero : Option ℕ → Bool
is_zero none = false
is_zero (some zero) = true
is_zero (some (suc n)) = false

unfoldable pub new_manager : ℕ → ManagerConfig → Outcome Error Manager
new_manager counter c = if is_zero c.max_sessions then err not_positive else ok (made counter c)

abbrev pub size : Manager → ℕ
size m = length m.sessions

abbrev pub is_full : Option ℕ → ℕ → Bool
is_full none n = false
is_full (some limit) n = leb limit n

abbrev pub or_default {ℓ} : {A : Type ℓ} → Option A → Option A → Option A
or_default none o = o
or_default (some a) o = some a

-- `config.id && this._sessions.has(config.id)`
abbrev pub is_taken : Option String → Dict Session → Bool
is_taken none sessions = false
is_taken (some id) sessions = if str_eq id "" then false else has id sessions

-- A session that was made is added, unless its id is there.
unfoldable pub add_session : Outcome Error Session → Manager → Manager × Outcome Error Session
add_session (err e) m = (m, err e)
add_session (ok s) m =
    if has s.id m.sessions
    then (m, err (session_exists s.id))
    else (record m { sessions = set s.id s m.sessions }, ok s)

module _ (named : ℕ → String) where
  -- `createSession`, once its client and its id are in order.
  unfoldable pub make_session : ℕ → SessionConfig → Manager → Manager × Outcome Error Session
  make_session now c m =
      let made_session = new_session named now c m.counter in
      add_session made_session.1 (record m { counter = made_session.0 })

  unfoldable pub create_session : ℕ → SessionConfig → Manager → Manager × Outcome Error Session
  create_session now c m =
      if is_full m.max_sessions (length m.sessions)
      then (m, err (limit_reached m.max_sessions))
      else elim (or_default c.client m.default_client) [
        | none ↦ (m, err no_client)
        | some client ↦
            if is_taken c.id m.sessions
            then (m, err (session_exists (or_else c.id "")))
            else make_session now
                (record c { client = some client; wallet = or_default c.wallet m.default_wallet }) m
      ]

abbrev pub has_session : String → Manager → Bool
has_session id m = has id m.sessions

unfoldable pub get_session : String → Manager → Outcome Error Session
get_session id m = elim (get id m.sessions) [ none ↦ err (no_session id) | some s ↦ ok s ]

abbrev pub try_get_session : String → Manager → Option Session
try_get_session id m = get id m.sessions

abbrev pub list_sessions : Manager → List Session
list_sessions m = values m.sessions

unfoldable pub find_by_contract : String → Manager → List Session
find_by_contract id m =
    keep (λ s. any (λ c. str_eq c.contract_id id) (list_contracts s)) (list_sessions m)

-- With the session that was closed, where there was one.
unfoldable pub close_session : ℕ → String → Manager → Manager × Option Session
close_session now id m = elim (get id m.sessions) [
  | none ↦ (m, none)
  | some s ↦ (record m { sessions = delete id m.sessions }, some (close now s))
]

-- With the sessions that were closed.
unfoldable pub close_all : ℕ → Manager → Manager × List Session
close_all now m = (record m { sessions = [] }, map (close now) (list_sessions m))
