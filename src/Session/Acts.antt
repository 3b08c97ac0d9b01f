-- ===== src/Session/Acts.antt =====
-- The calls of a ContractSession (src/session/contractSession.ts) that change it.
use axionvera_sdk.Prelude.{
  ℕ, ◌≡◌, ◌≢◌, refl, ap, ◌∙◌, subst, ◌⊎◌, inl, inr, String, false, List, [], ◌∷◌, arith, Bool-cases,
  Outcome, ok, err, ok_of_chain, str_eq, eq_iff,
}
use axionvera_sdk.Prelude.Dict.{
  set, has, IsDistinct, set-IsDistinct, delete-IsDistinct, Holds, Holds-set, Holds-delete,
}
use axionvera_sdk.Session.Contracts.{
  Status, active, suspended, closed, Context, RegisterParams, Session, Error, is_closed, empty_name,
  empty_contract_id, already_registered, trim, register_contract, unregister_contract, suspend,
  resume, close, register_all, assert_not_closed, is_closed_session, is_active,
  is_suspended_session, touch, context_of,
}

-- A call at a time.
pub data Act : Type 0 where
  registers : ℕ → RegisterParams → Act
  unregisters : ℕ → String → Act
  suspends resumes closes : ℕ → Act

-- The session after a call, which is as before where the call throws.
abbrev pub state_after {ℓ} : {A : Type ℓ} → (A → Session) → Session → Outcome Error A → Session
state_after state s (err e) = s
state_after state s (ok a) = state a

unfoldable pub act : Act → Session → Session
act (registers now p) s = state_after (λ r. r.0) s (register_contract now p s)
act (unregisters now name) s = state_after (λ r. r.0) s (unregister_contract now name s)
act (suspends now) s = state_after (λ r. r) s (suspend now s)
act (resumes now) s = state_after (λ r. r) s (resume now s)
act (closes now) s = close now s

unfoldable pub act_all : List Act → Session → Session
act_all [] s = s
act_all (a ∷ more) s = act_all more (act a s)

-- No call changes a session that is closed.
act-closed : (a : Act) (s : Session) → s.status ≡ closed → act a s ≡ s
unfolding act register_contract unregister_contract suspend resume close assert_not_closed
act-closed (registers now p) s h = ground arith
act-closed (unregisters now name) s h = ground arith
act-closed (suspends now) s h = ground arith
act-closed (resumes now) s h = ground arith
act-closed (closes now) s h = ground arith

-- A session that is closed stays as it is, whatever calls follow.
pub act_all-closed : (calls : List Act) (s : Session) → s.status ≡ closed → act_all calls s ≡ s
unfolding act_all
act_all-closed [] s h = refl
act_all-closed (a ∷ more) s h =
    let same = act-closed a s h in ap (act_all more) same ∙ act_all-closed more s h

-- A contract stands under its name, and neither this nor its id is empty.
abbrev pub IsNamed : String → Context → Type 0
IsNamed name c = (name ≡ c.name) × (name ≢ "") × (c.contract_id ≢ "")

-- A session that is closed has no contracts.
pub record IsSound (s : Session) : Type 0 where
  pub named : Holds IsNamed s.contracts
  pub distinct : IsDistinct s.contracts
  pub released : s.status ≡ closed → s.contracts ≡ []

abbrev registered : ℕ → RegisterParams → Session → Session
registered now p s =
    touch now (record s { contracts = set (trim p.name) (context_of now p) s.contracts })

register_contract_cases :
    (now : ℕ) (p : RegisterParams) (s : Session)
    → ((e : Error) × (register_contract now p s ≡ err e))
      ⊎ ((is_closed_session s ≡ false)
          × (str_eq (trim p.name) "" ≡ false)
          × (str_eq (trim p.contract_id) "" ≡ false)
          × (register_contract now p s ≡ ok (registered now p s, context_of now p)))
unfolding register_contract assert_not_closed
register_contract_cases now p s = elim (Bool-cases (is_closed_session s)) [
  | inl e ↦ inl (is_closed s.id, rw e refl)
  | inr e ↦ elim (Bool-cases (str_eq (trim p.name) "")) [
    | inl f ↦ inl (empty_name, rw (e, f) refl)
    | inr f ↦ elim (Bool-cases (str_eq (trim p.contract_id) "")) [
      | inl g ↦ inl (empty_contract_id (trim p.name), rw (e, f, g) refl)
      | inr g ↦ elim (Bool-cases (has (trim p.name) s.contracts)) [
        | inl h ↦ inl (already_registered (trim p.name), rw (e, f, g, h) refl)
        | inr h ↦ inr (e, f, g, rw (e, f, g, h) refl)
      ]
    ]
  ]
]

differs : (s t : String) → str_eq s t ≡ false → s ≢ t
differs s t h k = absurd (ground (arith, eq_iff s t, k))

registered-IsSound :
    (now : ℕ) (p : RegisterParams) (s : Session)
    → is_closed_session s ≡ false
    → str_eq (trim p.name) "" ≡ false
    → str_eq (trim p.contract_id) "" ≡ false
    → IsSound s
    → IsSound (registered now p s)
registered-IsSound now p s e f g h = record {
  named =
      Holds-set IsNamed (trim p.name) (context_of now p) s.contracts
        (refl, differs _ _ f, differs _ _ g) h.named;
  distinct = set-IsDistinct (trim p.name) (context_of now p) s.contracts h.distinct;
  released = λ k. absurd (ground arith);
}

-- What a call keeps: a sound session, and its id.
abbrev pub Keeps : Session → Session → Type 0
Keeps s t = IsSound t × (t.id ≡ s.id)

register_contract-Keeps :
    (now : ℕ) (p : RegisterParams) (s : Session)
    → IsSound s
    → Keeps s (state_after (λ r. r.0) s (register_contract now p s))
register_contract-Keeps now p s h = elim (register_contract_cases now p s) [
  | inl (e, same) ↦ rw same (h, refl)
  | inr (e, f, g, same) ↦ rw same (registered-IsSound now p s e f g h, refl)
]

unregister_contract-Keeps :
    (now : ℕ) (name : String) (s : Session)
    → IsSound s
    → Keeps s (state_after (λ r. r.0) s (unregister_contract now name s))
unfolding unregister_contract assert_not_closed
unregister_contract-Keeps now name s h = elim (Bool-cases (is_closed_session s)) [
  | inl e ↦ rw e (h, refl)
  | inr e ↦ elim (Bool-cases (has name s.contracts)) [
    | inr f ↦ rw (e, f) (h, refl)
    | inl f ↦
        rw (e, f)
          (
            record {
              named = Holds-delete IsNamed name s.contracts h.named;
              distinct = delete-IsDistinct name s.contracts h.distinct;
              released = λ k. absurd (ground arith);
            },
            refl,
          )
  ]
]

-- A status other than `closed` takes no part in it.
with_status-IsSound :
    (now : ℕ) (status : Status) (s : Session)
    → status ≢ closed
    → IsSound s
    → IsSound (touch now (record s { status = status }))
with_status-IsSound now status s ne h = record {
  named = h.named;
  distinct = h.distinct;
  released = λ k. absurd (ne k);
}

suspend-Keeps :
    (now : ℕ) (s : Session) → IsSound s → Keeps s (state_after (λ r. r) s (suspend now s))
unfolding suspend assert_not_closed
suspend-Keeps now s h = elim (Bool-cases (is_closed_session s)) [
  | inl e ↦ rw e (h, refl)
  | inr e ↦ elim (Bool-cases (is_active s)) [
    | inl f ↦
        let ne : suspended ≢ closed = cc in
        rw (e, f) (with_status-IsSound now suspended s ne h, refl)
    | inr f ↦ rw (e, f) (h, refl)
  ]
]

resume-Keeps : (now : ℕ) (s : Session) → IsSound s → Keeps s (state_after (λ r. r) s (resume now s))
unfolding resume assert_not_closed
resume-Keeps now s h = elim (Bool-cases (is_closed_session s)) [
  | inl e ↦ rw e (h, refl)
  | inr e ↦ elim (Bool-cases (is_suspended_session s)) [
    | inl f ↦
        let ne : active ≢ closed = cc in rw (e, f) (with_status-IsSound now active s ne h, refl)
    | inr f ↦ rw (e, f) (h, refl)
  ]
]

close-Keeps : (now : ℕ) (s : Session) → IsSound s → Keeps s (close now s)
unfolding close
close-Keeps now s h = elim (Bool-cases (is_closed_session s)) [
  | inl e ↦ rw e (h, refl)
  | inr e ↦ rw e (record { named = tt; distinct = tt; released = λ k. refl }, refl)
]

-- Every call keeps a sound session sound, and its id.
pub act-Keeps : (a : Act) (s : Session) → IsSound s → Keeps s (act a s)
unfolding act
act-Keeps (registers now p) s h = register_contract-Keeps now p s h
act-Keeps (unregisters now name) s h = unregister_contract-Keeps now name s h
act-Keeps (suspends now) s h = suspend-Keeps now s h
act-Keeps (resumes now) s h = resume-Keeps now s h
act-Keeps (closes now) s h = close-Keeps now s h

-- The contracts that the constructor registers.
pub register_all-Keeps :
    (now : ℕ) (ps : List RegisterParams) (s t : Session)
    → register_all now ps s ≡ ok t
    → IsSound s
    → Keeps s t
unfolding register_all
register_all-Keeps now [] s t h k = let same : s ≡ t = cc in subst (Keeps s) same (k, refl)
register_all-Keeps now (p ∷ ps) s t h k =
    let (r, first, rest) = ok_of_chain _ (λ r. register_all now ps r.0) t h in
    let (sound, same) =
      subst (λ o. Keeps s (state_after (λ r. r.0) s o)) first (register_contract-Keeps now p s k) in
    let (last, same_too) = register_all-Keeps now ps r.0 t rest sound in (last, same_too ∙ same)
