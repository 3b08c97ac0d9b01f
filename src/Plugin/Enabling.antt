-- ===== src/Plugin/Enabling.antt =====
-- `enable` of src/plugin/pluginManager.ts on every branch.
use mathlib.Core.Option.{none-ne-some, some-injective}
use axionvera_sdk.Prelude.{
  ◌↔◌, ◌≢◌, same_iff, arith, ◌⊎◌, true, false, Bool-cases, ℕ, ◌≡◌, refl, sym, ap, ◌∙◌, subst, inl,
  inr, ◌⊎◌, String, true, false, not, Option, none, some, ok, err,
}
use axionvera_sdk.Prelude.Dict.{get}
use axionvera_sdk.Plugin.Types.{
  State, State-discrete, installed, disabled, unregistered, active, error, Instance, Error, Hook,
  Hooks, Answer, returns, throws, rejects, invalid_transition,
}
use axionvera_sdk.Plugin.Lifecycle.{valid_transitions, is, is_valid_transition}
use axionvera_sdk.Plugin.Runs.{Manager, id_of, seq, move, call_hook, awaited, hook_of, guarded}
use axionvera_sdk.Plugin.Manager.{enable}
use axionvera_sdk.Plugin.Required.{with_plugin_there, when-true, seq_ok}
use axionvera_sdk.Plugin.Standing.{Stands, seq_err, guarded_cases, move_cases, move-ran}

-- The hook `onEnable` that a plugin has.
abbrev pub HasOnEnable : Instance → Hook → Type 0
HasOnEnable p hook = (hs : Hooks) × (p.config.hooks ≡ some hs) × (hs.on_enable ≡ some hook)

-- The hook, called after so many other hooks, throws or rejects.
abbrev pub Fails : Hook → ℕ → Type 0
Fails hook n = (why : String) × ((hook n ≡ throws why) ⊎ (hook n ≡ rejects why))

returned_by : (hook : Hook) (n : ℕ) → awaited (hook n) ≡ ok tt → hook n ≡ returns
returned_by hook n h = answer_ok (hook n) h
  where
    answer_ok : (a : Answer) → awaited a ≡ ok tt → a ≡ returns
    answer_ok returns h = refl
    answer_ok (throws e) h = cc
    answer_ok (rejects e) h = cc

failed_by : (hook : Hook) (n : ℕ) (why : Error) → awaited (hook n) ≡ err why → Fails hook n
failed_by hook n why h = answer_err (hook n) h
  where
    answer_err :
        (a : Answer)
        → awaited a ≡ err why
        → (said : String) × ((a ≡ throws said) ⊎ (a ≡ rejects said))
    answer_err returns h = absurd cc
    answer_err (throws e) h = (e, inl refl)
    answer_err (rejects e) h = (e, inr refl)

call_hook_ok :
    (o : Option Hook) (m : Manager) (hook : Hook)
    → (call_hook o m).1 ≡ ok tt
    → o ≡ some hook
    → hook m.ran ≡ returns
unfolding call_hook
call_hook_ok none m hook h e = absurd (none-ne-some hook e)
call_hook_ok (some own) m hook h e =
    subst (λ x. x m.ran ≡ returns) (some-injective own hook e) (returned_by own m.ran h)

call_hook_err :
    (o : Option Hook) (m : Manager) (why : Error)
    → (call_hook o m).1 ≡ err why
    → (hook : Hook) × (o ≡ some hook) × Fails hook m.ran
unfolding call_hook
call_hook_err none m why h = absurd cc
call_hook_err (some own) m why h = (own, refl, failed_by own m.ran why h)

hook_of-HasOnEnable :
    (p : Instance) (hook : Hook) → hook_of (λ h. h.on_enable) p ≡ some hook → HasOnEnable p hook
hook_of-HasOnEnable p hook h = own_hooks p.config.hooks h
  where
    own_hooks :
        (o : Option Hooks)
        → (elim o [ none ↦ none | some h ↦ h.on_enable ]) ≡ some hook
        → (hs : Hooks) × (o ≡ some hs) × (hs.on_enable ≡ some hook)
    own_hooks none h = absurd (none-ne-some hook h)
    own_hooks (some hs) h = (hs, refl, h)

HasOnEnable-hook_of :
    (p : Instance) (hook : Hook) → HasOnEnable p hook → hook_of (λ h. h.on_enable) p ≡ some hook
HasOnEnable-hook_of p hook (hs, given_hooks, is_it) =
    ap (λ o. elim o [ none ↦ none | some h ↦ h.on_enable ]) given_hooks ∙ is_it

-- The states from which the table moves to Active.
abbrev pub MayEnable : State → Type 0
MayEnable s = (s ≡ installed) ⊎ (s ≡ disabled)

is_valid_transition-MayEnable : (s : State) → (is_valid_transition s active ≡ true) ↔ MayEnable s
unfolding is_valid_transition valid_transitions State-discrete
is_valid_transition-MayEnable unregistered = grind arith
is_valid_transition-MayEnable _ = grind arith

-- On a plugin that is not active, enable throws where its state is neither Installed nor Disabled, and changes
-- nothing. Else either it returns, with the plugin in Active, and its onEnable hook, if it has one, returned; or it
-- throws, with the plugin in Error, and the plugin has an onEnable hook that threw or rejected.
pub enable_cases :
    (id : String) (m : Manager) (p : Instance)
    → get id m.plugins ≡ some p
    → id_of p ≡ id
    → p.state ≢ active
    → ((¬ MayEnable p.state) × (enable id m ≡ (m, err (invalid_transition id p.state active))))
      ⊎ (MayEnable p.state
          × ((((enable id m).1 ≡ ok tt)
                × Stands (enable id m).0 p active
                × ((hook : Hook) → HasOnEnable p hook → hook m.ran ≡ returns))
              ⊎ ((e : Error) × ((enable id m).1 ≡ err e)
                  × Stands (enable id m).0 p error
                  × ((hook : Hook) × HasOnEnable p hook × Fails hook m.ran))))
unfolding enable
enable_cases id m p there same not_active =
    let idle : is p.state active ≡ false = elim (Bool-cases (is p.state active)) [
      | inr e ↦ e
      | inl e ↦ absurd (not_active ((same_iff State-discrete p.state active).0 e))
    ] in
    let body = seq (move p active) (guarded (λ h. h.on_enable) p) in
    let step : enable id m ≡ body m =
      with_plugin_there id _ m p there
      ∙ when-true (not (is p.state active)) body m (rw idle refl) in
    let stands : Stands m p p.state = record {
      now = p;
      there = subst (λ i. get i m.plugins ≡ some p) (sym same) there;
      same = refl;
      state = refl;
    } in
    elim (move_cases m p p.state active stands) [
      | inl (illegal, throws_it) ↦ inl (
        (λ may. absurd (ground (arith, illegal, (is_valid_transition-MayEnable p.state).1 may))),
        step
            ∙ seq_err (move p active) _ m _ (ap (λ r. r.1) throws_it)
            ∙ ap (λ r. (r.0, err (invalid_transition (id_of p) p.state active))) throws_it
            ∙ ap (λ i. (m, err (invalid_transition i p.state active))) same,
      )
      | inr (legal, done, moved) ↦
          let after = (move p active m).0 in
          let go : body m ≡ guarded (λ h. h.on_enable) p after =
            seq_ok (move p active) _ m after (ap (λ r. (after, r)) done) in
          inr (
            (is_valid_transition-MayEnable p.state).0 legal,
            elim (guarded_cases after p active (λ h. h.on_enable) moved) [
              | inl (returned, fine, quiet) ↦ inl (
                ap (λ r. r.1) (step ∙ go) ∙ returned,
                subst (λ r. Stands r.0 p active) (sym (step ∙ go)) fine,
                λ hook own.
                    subst (λ n. hook n ≡ returns) (move-ran p active m)
                      (call_hook_ok (hook_of (λ h. h.on_enable) p) after hook quiet
                        (HasOnEnable-hook_of p hook own)),
              )
              | inr (e, failed, broken, (why, broke)) ↦ inr (
                e,
                ap (λ r. r.1) (step ∙ go) ∙ failed,
                subst (λ r. Stands r.0 p error) (sym (step ∙ go)) broken,
                (let (hook, own, fails) =
                      call_hook_err (hook_of (λ h. h.on_enable) p) after why broke in
                    (
                      hook,
                      hook_of-HasOnEnable p hook own,
                      subst (Fails hook) (move-ran p active m) fails,
                    )),
              )
            ],
          )
    ]
