-- ===== src/Plugin/Standing.antt =====
-- What a move and a guarded hook of src/plugin/pluginManager.ts leave of a plugin.
use axionvera_sdk.Prelude.{
  Option-cases, ◌≡◌, refl, sym, ap, ◌∙◌, subst, inl, inr, ◌⊎◌, String, true, false, Option, none,
  some, ok, err, Bool-cases, Outcome-cases, eq_refl, ==_iff, or_else,
}
use axionvera_sdk.Prelude.Dict.{get, get-set}
use axionvera_sdk.Plugin.Types.{State, error, Instance, Error, Hook, Hooks, invalid_transition}
use axionvera_sdk.Plugin.Lifecycle.{is_valid_transition, transition_state}
use axionvera_sdk.Plugin.Runs.{
  Manager, Run, id_of, seq, found, current, put, update, with_state, with_error, move, call_hook,
  hook_of, call_on_error, on_error_of, set_plugin_error, try_catch, guarded, raise,
}

-- The manager has an instance of that id and serial number, in that state.
pub record Stands (m : Manager) (p : Instance) (s : State) : Type 0 where
  pub now : Instance
  pub there : get (id_of p) m.plugins ≡ some now
  pub same : now.serial ≡ p.serial
  pub state : now.state ≡ s

found_there :
    (m : Manager) (p : Instance) (s : State) (h : Stands m p s)
    → found p (get (id_of p) m.plugins) ≡ some h.now
unfolding found
found_there m p s h = rw h.there (rw ((==_iff h.now.serial p.serial).1 h.same) refl)

update-Stands :
    (m : Manager) (p : Instance) (s : State) (change : Instance → Instance) (t : State)
    → (h : Stands m p s) → ((q : Instance) → (change q).serial ≡ q.serial)
    → ((q : Instance) → (change q).state ≡ t)
    → Stands (update p change m) p t
unfolding update put
update-Stands m p s change t h kept sets = record {
  now = change h.now;
  there =
      rw (found_there m p s h, update)
        (get-set (id_of p) (id_of p) (change h.now) m.plugins ∙ rw (eq_refl (id_of p)) refl);
  same = kept h.now ∙ h.same;
  state = sets h.now;
}

-- A hook leaves the plugins as they are.
call_hook-Stands :
    (m : Manager) (p : Instance) (s : State) (o : Option Hook)
    → Stands m p s
    → Stands (call_hook o m).0 p s
unfolding call_hook
call_hook-Stands m p s none h = h
call_hook-Stands m p s (some hook) h = record {
  now = h.now;
  there = h.there;
  same = h.same;
  state = h.state;
}

call_on_error-Stands :
    (m : Manager) (p : Instance) (s : State) (o : Option (Error → Hook)) (e : Error)
    → Stands m p s
    → Stands (call_on_error o e m).0 p s
unfolding call_on_error
call_on_error-Stands m p s none e h = h
call_on_error-Stands m p s (some hook) e h = record {
  now = h.now;
  there = h.there;
  same = h.same;
  state = h.state;
}

set_plugin_error-Stands :
    (m : Manager) (p : Instance) (s : State) (e : Error)
    → Stands m p s
    → Stands (set_plugin_error p e m).0 p error
unfolding set_plugin_error
set_plugin_error-Stands m p s e h =
    call_on_error-Stands (update p (with_error e) m) p error (on_error_of p) e
      (update-Stands m p s (with_error e) error h (λ q. refl) (λ q. refl))

try_catch_ok :
    (p : Run) (handler : Error → Run) (m : Manager)
    → (p m).1 ≡ ok tt
    → try_catch p handler m ≡ ((p m).0, ok tt)
unfolding try_catch
try_catch_ok p handler m h = rw (h, try_catch) refl

try_catch_err :
    (p : Run) (handler : Error → Run) (m : Manager) (e : Error)
    → (p m).1 ≡ err e
    → try_catch p handler m ≡ handler e (p m).0
unfolding try_catch
try_catch_err p handler m e h = rw (h, try_catch) refl

seq-raise :
    (p : Run) (e : Error) (m : Manager)
    → ((thrown_on : Error) × ((seq p (raise e) m).1 ≡ err thrown_on))
      × ((seq p (raise e) m).0 ≡ (p m).0)
unfolding seq
seq-raise p e m = elim (Outcome-cases (p m).1) [
  | inl (f, failed) ↦ ((f, rw (failed, seq) refl), rw (failed, seq) refl)
  | inr (u, done) ↦ ((e, rw (done, seq) refl), rw (done, seq) refl)
]

pub seq_err : (p q : Run) (m : Manager) (e : Error) → (p m).1 ≡ err e → seq p q m ≡ ((p m).0, err e)
unfolding seq
seq_err p q m e h = rw (h, seq) refl

-- A guarded hook that returns leaves the state; one that throws puts the plugin in Error, and throws on.
pub guarded_cases :
    (m : Manager) (p : Instance) (s : State) (field : Hooks → Option Hook)
    → Stands m p s
    → (((guarded field p m).1 ≡ ok tt)
        × Stands (guarded field p m).0 p s
        × ((call_hook (hook_of field p) m).1 ≡ ok tt))
      ⊎ ((e : Error) × ((guarded field p m).1 ≡ err e)
          × Stands (guarded field p m).0 p error
          × ((why : Error) × ((call_hook (hook_of field p) m).1 ≡ err why)))
unfolding guarded
guarded_cases m p s field h =
    let o = hook_of field p in
    let t = (call_hook o m).0 in
    let stands = call_hook-Stands m p s o h in
    elim (Outcome-cases (call_hook o m).1) [
      | inr (u, done) ↦
          let step : guarded field p m ≡ (t, ok tt) = try_catch_ok (call_hook o) _ m done in
          inl (ap (λ r. r.1) step, subst (λ r. Stands r.0 p s) (sym step) stands, done)
      | inl (e, failed) ↦
          let step : guarded field p m ≡ seq (set_plugin_error p e) (raise e) t =
            try_catch_err (call_hook o) _ m e failed in
          let broken = set_plugin_error-Stands t p s e stands in
          let ((thrown_on, throws_on), same) = seq-raise (set_plugin_error p e) e t in
          inr (
            thrown_on,
            ap (λ r. r.1) step ∙ throws_on,
            subst (λ x. Stands x p error) (sym (ap (λ r. r.0) step ∙ same)) broken,
            (e, failed),
          )
    ]

transition_legal :
    (id : String) (s target : State)
    → is_valid_transition s target ≡ true
    → transition_state id s target ≡ ok target
unfolding transition_state
transition_legal id s target h = rw h refl

transition_illegal :
    (id : String) (s target : State)
    → is_valid_transition s target ≡ false
    → transition_state id s target ≡ err (invalid_transition id s target)
unfolding transition_state
transition_illegal id s target h = rw h refl

move_ok :
    (p : Instance) (s target : State) (m : Manager)
    → (current p m).state ≡ s
    → is_valid_transition s target ≡ true
    → move p target m ≡ (update p (with_state target) m, ok tt)
unfolding move
move_ok p s target m e legal =
    rw
      (
        ap (λ c. transition_state (id_of p) c target) e ∙ transition_legal (id_of p) s target legal,
        move,
      )
      refl

move_err :
    (p : Instance) (s target : State) (m : Manager)
    → (current p m).state ≡ s
    → is_valid_transition s target ≡ false
    → move p target m ≡ (m, err (invalid_transition (id_of p) s target))
unfolding move
move_err p s target m e illegal =
    rw
      (
        ap (λ c. transition_state (id_of p) c target) e
            ∙ transition_illegal (id_of p) s target illegal,
        move,
      )
      refl

pub move_cases :
    (m : Manager) (p : Instance) (s target : State)
    → Stands m p s
    → ((is_valid_transition s target ≡ false)
        × (move p target m ≡ (m, err (invalid_transition (id_of p) s target))))
      ⊎ ((is_valid_transition s target ≡ true)
          × ((move p target m).1 ≡ ok tt)
          × Stands (move p target m).0 p target)
unfolding current
move_cases m p s target h =
    let at : (current p m).state ≡ s =
      ap (λ o. (or_else o p).state) (found_there m p s h) ∙ h.state in
    elim (Bool-cases (is_valid_transition s target)) [
      | inl legal ↦
          (let step = move_ok p s target m at legal in
            inr (
              legal,
              ap (λ r. r.1) step,
              subst (λ r. Stands r.0 p target) (sym step)
                  (update-Stands m p s (with_state target) target h (λ q. refl) (λ q. refl)),
            ))
      | inr illegal ↦ inl (illegal, move_err p s target m at illegal)
    ]

-- A move calls no hook.
update-ran :
    (p : Instance) (change : Instance → Instance) (m : Manager) → (update p change m).ran ≡ m.ran
unfolding update put
update-ran p change m = elim (Option-cases (found p (get (id_of p) m.plugins))) [
  | inl e ↦ rw (update, e) refl
  | inr (q, e) ↦ rw (update, e) refl
]

pub move-ran : (p : Instance) (target : State) (m : Manager) → (move p target m).0.ran ≡ m.ran
unfolding move
move-ran p target m = elim (Outcome-cases (transition_state (id_of p) (current p m).state target)) [
  | inl (e, h) ↦ rw (move, h) refl
  | inr (s, h) ↦ rw (move, h) (update-ran p (with_state s) m)
]
