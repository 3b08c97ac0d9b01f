-- ===== src/Session/Histories.antt =====
-- Lists of calls of SessionManager (src/session/sessionManager.ts) and of its sessions.
use axionvera_sdk.Prelude.{
  ℕ, suc, ◌≤◌, ◌≡◌, refl, sym, ◌∙◌, subst, inl, inr, String, false, Option, none, some, List, [],
  ◌∷◌, length, arith, Bool-cases, Option-cases, Outcome, ok, err, err-ne-ok, or_else, if◌then◌else◌,
}
use axionvera_sdk.Prelude.Dict.{
  Dict, get, set, delete, has, IsDistinct, set-IsDistinct, delete-IsDistinct, Holds, Holds-set,
  Holds-delete, Holds-get,
}
use axionvera_sdk.Session.Contracts.{
  Client, SessionConfig, Session, Error, client_required, not_positive, new_session, session_with,
  id_with, initial,
}
use axionvera_sdk.Session.Manager.{
  ManagerConfig, Manager, new_manager, made, is_full, is_zero, or_default, is_taken, add_session,
  make_session, create_session, close_session, close_all,
}
use axionvera_sdk.Session.Acts.{Act, act, IsSound, act-Keeps, register_all-Keeps}

pub data Call : Type 0 where
  creates : ℕ → SessionConfig → Call
  closes_one : ℕ → String → Call
  closes_every : ℕ → Call
  acts : String → Act → Call

-- A client calls a session that the manager has.
unfoldable pub act_on : String → Act → Manager → Manager
act_on id a m = elim (get id m.sessions) [
  | none ↦ m
  | some s ↦ record m { sessions = set id (act a s) m.sessions }
]

module _ (named : ℕ → String) where
  unfoldable pub after_call : Call → Manager → Manager
  after_call (creates now c) m = (create_session named now c m).0
  after_call (closes_one now id) m = (close_session now id m).0
  after_call (closes_every now) m = (close_all now m).0
  after_call (acts id a) m = act_on id a m

  unfoldable pub after_calls : List Call → Manager → Manager
  after_calls [] m = m
  after_calls (c ∷ cs) m = after_calls cs (after_call c m)

abbrev pub IsWithin : Option ℕ → ℕ → Type 0
IsWithin none n = Unit
IsWithin (some limit) n = n ≤ limit

abbrev pub IsOwn : String → Session → Type 0
IsOwn id s = (id ≡ s.id) × IsSound s

-- No more sessions than the limit, each under its own id, once, and sound.
pub record IsOrdered (m : Manager) : Type 0 where
  pub sized : IsWithin m.max_sessions (length m.sessions)
  pub own : Holds IsOwn m.sessions
  pub distinct : IsDistinct m.sessions

length-set :
    (k : String) (v : Session) (m : Dict Session)
    → length (set k v m) ≡ (if has k m then length m else suc (length m))
unfolding set get
length-set k v [] = refl
length-set k v ((j, w) ∷ m) = ground (arith, length-set k v m)

length-delete : (k : String) (m : Dict Session) → length (delete k m) ≤ length m
unfolding delete
length-delete k [] = omega arith
length-delete k ((j, w) ∷ m) = ground (arith, length-delete k m)

IsWithin-le : (o : Option ℕ) (n k : ℕ) → k ≤ n → IsWithin o n → IsWithin o k
IsWithin-le none n k h w = tt
IsWithin-le (some limit) n k h w = omega arith

IsWithin-suc : (o : Option ℕ) (n : ℕ) → is_full o n ≡ false → IsWithin o (suc n)
IsWithin-suc none n h = tt
IsWithin-suc (some limit) n h = ground arith

initial-IsSound :
    (named : ℕ → String) (now : ℕ) (id : String) (client : Client) (c : SessionConfig)
    → IsSound (initial named now id client c)
initial-IsSound named now id client c = record { named = tt; distinct = tt; released = λ h. refl }

session_with-IsSound :
    (named : ℕ → String) (o : Option Client) (now : ℕ) (c : SessionConfig) (counter : ℕ)
    (s : Session)
    → (session_with named o now c counter).1 ≡ ok s
    → IsSound s
unfolding session_with
session_with-IsSound named none now c counter s h = absurd (err-ne-ok _ client_required s refl h)
session_with-IsSound named (some client) now c counter s h =
    let id = (id_with named c.id counter).1 in
    (register_all-Keeps now (or_else c.contracts []) (initial named now id client c) s h
      (initial-IsSound named now id client c)).0

add_session-IsOrdered :
    (o : Outcome Error Session) (m : Manager)
    → is_full m.max_sessions (length m.sessions) ≡ false
    → ((s : Session) → o ≡ ok s → IsSound s)
    → IsOrdered m
    → IsOrdered (add_session o m).0
unfolding add_session
add_session-IsOrdered (err e) m h k i = i
add_session-IsOrdered (ok s) m h k i = elim (Bool-cases (has s.id m.sessions)) [
  | inl e ↦ rw e i
  | inr e ↦
      let longer : length (set s.id s m.sessions) ≡ suc (length m.sessions) =
        ground (arith, length-set s.id s m.sessions) in
      rw e (record {
        sized =
            subst (IsWithin m.max_sessions) (sym longer)
              (IsWithin-suc m.max_sessions (length m.sessions) h);
        own = Holds-set IsOwn s.id s m.sessions (refl, k s refl) i.own;
        distinct = set-IsDistinct s.id s m.sessions i.distinct;
      })
]

create_session-IsOrdered :
    (named : ℕ → String) (now : ℕ) (c : SessionConfig) (m : Manager)
    → IsOrdered m
    → IsOrdered (create_session named now c m).0
unfolding create_session make_session
create_session-IsOrdered named now c m h =
    elim (Bool-cases (is_full m.max_sessions (length m.sessions))) [
      | inl e ↦ rw e h
      | inr e ↦ elim (Option-cases (or_default c.client m.default_client)) [
        | inl f ↦ rw (e, f) h
        | inr (client, f) ↦ elim (Bool-cases (is_taken c.id m.sessions)) [
          | inl g ↦ rw (e, f, g) h
          | inr g ↦
              let config : SessionConfig = record c {
                client = some client;
                wallet = or_default c.wallet m.default_wallet;
              } in
              rw (e, f, g)
                (add_session-IsOrdered (new_session named now config m.counter).1
                  (record m { counter = (new_session named now config m.counter).0 }) e
                  (session_with-IsSound named (some client) now config m.counter)
                  (record { sized = h.sized; own = h.own; distinct = h.distinct }))
        ]
      ]
    ]

act_on-IsOrdered : (id : String) (a : Act) (m : Manager) → IsOrdered m → IsOrdered (act_on id a m)
unfolding act_on
act_on-IsOrdered id a m h = elim (Option-cases (get id m.sessions)) [
  | inl e ↦ rw (act_on, e) h
  | inr (s, e) ↦
      let (named, sound) = Holds-get IsOwn id s m.sessions h.own e in
      let (still, same) = act-Keeps a s sound in
      let as_many : length (set id (act a s) m.sessions) ≡ length m.sessions =
        ground (arith, length-set id (act a s) m.sessions) in
      rw (act_on, e)
        (record {
          sized = subst (IsWithin m.max_sessions) (sym as_many) h.sized;
          own = Holds-set IsOwn id (act a s) m.sessions (named ∙ sym same, still) h.own;
          distinct = set-IsDistinct id (act a s) m.sessions h.distinct;
        })
]

close_session-IsOrdered :
    (now : ℕ) (id : String) (m : Manager) → IsOrdered m → IsOrdered (close_session now id m).0
unfolding close_session
close_session-IsOrdered now id m h = elim (Option-cases (get id m.sessions)) [
  | inl e ↦ rw (close_session, e) h
  | inr (s, e) ↦
      rw (close_session, e)
        (record {
          sized =
              IsWithin-le m.max_sessions (length m.sessions) (length (delete id m.sessions))
                (length-delete id m.sessions) h.sized;
          own = Holds-delete IsOwn id m.sessions h.own;
          distinct = delete-IsDistinct id m.sessions h.distinct;
        })
]

close_all-IsOrdered : (now : ℕ) (m : Manager) → IsOrdered m → IsOrdered (close_all now m).0
unfolding close_all
close_all-IsOrdered now m h = record {
  sized = IsWithin-le m.max_sessions (length m.sessions) 0 (omega arith) h.sized;
  own = tt;
  distinct = tt;
}

IsWithin-zero : (o : Option ℕ) → IsWithin o 0
IsWithin-zero none = tt
IsWithin-zero (some limit) = omega arith

made-IsOrdered : (counter : ℕ) (c : ManagerConfig) → IsOrdered (made counter c)
made-IsOrdered counter c = record { sized = IsWithin-zero c.max_sessions; own = tt; distinct = tt }

new_manager-IsOrdered :
    (counter : ℕ) (c : ManagerConfig) (m : Manager) → new_manager counter c ≡ ok m → IsOrdered m
unfolding new_manager
new_manager-IsOrdered counter c m h = elim (Bool-cases (is_zero c.max_sessions)) [
  | inl e ↦ absurd (err-ne-ok (new_manager counter c) not_positive m (rw (e, new_manager) refl) h)
  | inr e ↦
      let started : new_manager counter c ≡ ok (made counter c) = rw (e, new_manager) refl in
      let same : made counter c ≡ m = cc in subst IsOrdered same (made-IsOrdered counter c)
]

module _ (named : ℕ → String) where
  after_call-IsOrdered : (c : Call) (m : Manager) → IsOrdered m → IsOrdered (after_call named c m)
  unfolding after_call
  after_call-IsOrdered (creates now c) m h = create_session-IsOrdered named now c m h
  after_call-IsOrdered (closes_one now id) m h = close_session-IsOrdered now id m h
  after_call-IsOrdered (closes_every now) m h = close_all-IsOrdered now m h
  after_call-IsOrdered (acts id a) m h = act_on-IsOrdered id a m h

  after_calls-IsOrdered :
      (cs : List Call) (m : Manager) → IsOrdered m → IsOrdered (after_calls named cs m)
  unfolding after_calls
  after_calls-IsOrdered [] m h = h
  after_calls-IsOrdered (c ∷ cs) m h =
      after_calls-IsOrdered cs (after_call named c m) (after_call-IsOrdered c m h)

  -- Over any calls of a new manager and of its sessions it has no more sessions than its limit, each under its own
  -- id, once; the contracts of a session stand under their names, once, with neither a name nor an id empty, and a
  -- session that is closed has none.
  pub after_calls-new_manager :
      (counter : ℕ) (c : ManagerConfig) (m : Manager) (cs : List Call)
      → new_manager counter c ≡ ok m
      → IsOrdered (after_calls named cs m)
  after_calls-new_manager counter c m cs h =
      after_calls-IsOrdered cs m (new_manager-IsOrdered counter c m h)
