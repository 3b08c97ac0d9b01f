-- ===== src/Environment/Histories.antt =====
-- Lists of calls of EnvironmentManager (src/network/environmentManager.ts).
use axionvera_sdk.Prelude.{
  ℕ, ◌≡◌, ◌≢◌, refl, sym, ap, ◌∙◌, subst, inl, inr, String, Bool, true, false, none, some, List, [],
  ◌∷◌, ◌++◌, arith, Bool-cases, or_else, str_eq, any, keep, not, ◌==◌,
}
use mathlib.Core.Option.{none-ne-some, some-injective}
use axionvera_sdk.Prelude.Dict.{
  Dict, get, set, delete, get-set, get-delete, IsDistinct, set-IsDistinct, delete-IsDistinct, Holds,
  Holds-set, Holds-delete,
}
use axionvera_sdk.Environment.Presets.{
  EnvironmentConfig, EnvironmentOptions, Networks, tier_text, build_environment_config,
  get_preset_environments,
}
use axionvera_sdk.Environment.Manager.{
  Manager, new_manager, register, unregister, is_active, switch, on_change, remove_listener,
  clear_listeners, set_each, overrides_of,
}
use axionvera_sdk.Environment.Fit.{switch_cases}

pub data Call : Type 0 where
  registers : EnvironmentOptions → Call
  unregisters switches : String → Call
  listens leaves : ℕ → Call
  clears : Call

module _ (networks : Networks) where
  unfoldable pub made : Call → Manager → Manager
  made (registers o) m = (register networks o m).0
  made (unregisters id) m = (unregister id m).0
  made (switches id) m = (switch id m).0
  made (listens l) m = on_change l m
  made (leaves l) m = remove_listener l m
  made clears m = clear_listeners m

  unfoldable pub run : List Call → Manager → Manager
  run [] m = m
  run (c ∷ cs) m = run cs (made c m)

abbrev pub IsKeyed : String → EnvironmentConfig → Type 0
IsKeyed id c = id ≡ c.id

-- The active environment is registered, each environment stands under its own id, and no id stands twice.
pub record IsSound (m : Manager) : Type 0 where
  pub active : (id : String) → m.active_id ≡ some id → get id m.registry ≢ none
  pub keyed : Holds IsKeyed m.registry
  pub distinct : IsDistinct m.registry

get-set-some :
    (k id : String) (v : EnvironmentConfig) (r : Dict EnvironmentConfig)
    → get id r ≢ none
    → get id (set k v r) ≢ none
get-set-some k id v r h e = elim (Bool-cases (str_eq k id)) [
  | inl same ↦ absurd (ground (arith, get-set k id v r))
  | inr other ↦ h (ground (arith, get-set k id v r))
]

get-delete-some :
    (k id : String) (r : Dict EnvironmentConfig)
    → str_eq k id ≡ false
    → get id r ≢ none
    → get id (delete k r) ≢ none
get-delete-some k id r other h e = h (ground (arith, get-delete k id r))

register-IsSound :
    (networks : Networks) (o : EnvironmentOptions) (m : Manager)
    → IsSound m
    → IsSound (register networks o m).0
unfolding register
register-IsSound networks o m h =
    let key = or_else o.id (tier_text o.tier) in
    let config : EnvironmentConfig = build_environment_config networks o.tier (overrides_of o) in
    record {
      active = λ id a. get-set-some key id config m.registry (h.active id a);
      keyed = Holds-set IsKeyed key config m.registry refl h.keyed;
      distinct = set-IsDistinct key config m.registry h.distinct;
    }

unregister-IsSound : (id : String) (m : Manager) → IsSound m → IsSound (unregister id m).0
unfolding unregister
unregister-IsSound id m h = elim (Bool-cases (is_active id m.active_id)) [
  | inl e ↦ rw e h
  | inr e ↦ rw e (record {
    active = λ j a. get-delete-some id j m.registry (sym (ap (is_active id) a) ∙ e) (h.active j a);
    keyed = Holds-delete IsKeyed id m.registry h.keyed;
    distinct = delete-IsDistinct id m.registry h.distinct;
  })
]

switch-IsSound : (id : String) (m : Manager) → IsSound m → IsSound (switch id m).0
switch-IsSound id m h = elim (switch_cases id m) [
  | inl (missing, same) ↦ subst IsSound (sym (ap (λ p. p.0) same)) h
  | inr (c, there, inr (unfit, same)) ↦ subst IsSound (sym (ap (λ p. p.0) same)) h
  | inr (c, there, inl (fit, step)) ↦ subst IsSound (sym (ap (λ p. p.0) step)) (record {
    active = λ j a e.
        none-ne-some c (sym e ∙ sym (ap (λ k. get k m.registry) (some-injective id j a)) ∙ there);
    keyed = h.keyed;
    distinct = h.distinct;
  })
]

-- What neither the active environment nor the registry takes a part in.
heard : (m : Manager) (ls : List ℕ) → IsSound m → IsSound (record m { listeners = ls })
heard m ls h = record { active = h.active; keyed = h.keyed; distinct = h.distinct }

on_change-IsSound : (l : ℕ) (m : Manager) → IsSound m → IsSound (on_change l m)
unfolding on_change
on_change-IsSound l m h = elim (Bool-cases (any (λ k. k == l) m.listeners)) [
  | inl e ↦ rw e h
  | inr e ↦ rw e (heard m (m.listeners ++ l ∷ []) h)
]

set_each-IsSound :
    (ps : List EnvironmentConfig) (r : Dict EnvironmentConfig)
    → Holds IsKeyed r
    → IsDistinct r
    → Holds IsKeyed (set_each ps r) × IsDistinct (set_each ps r)
set_each-IsSound [] r k d = (k, d)
set_each-IsSound (p ∷ ps) r k d =
    set_each-IsSound ps (set p.id p r) (Holds-set IsKeyed p.id p r refl k)
      (set-IsDistinct p.id p r d)

new_manager-IsSound : (networks : Networks) (b : Bool) → IsSound (new_manager networks b)
unfolding new_manager
new_manager-IsSound networks true =
    let (keyed, distinct) = set_each-IsSound (get_preset_environments networks) [] tt tt in
    record { active = λ id a. absurd (none-ne-some id a); keyed = keyed; distinct = distinct }
new_manager-IsSound networks false = record {
  active = λ id a. absurd (none-ne-some id a);
  keyed = tt;
  distinct = tt;
}

module _ (networks : Networks) where
  made-IsSound : (c : Call) (m : Manager) → IsSound m → IsSound (made networks c m)
  unfolding made remove_listener clear_listeners
  made-IsSound (registers o) m h = register-IsSound networks o m h
  made-IsSound (unregisters id) m h = unregister-IsSound id m h
  made-IsSound (switches id) m h = switch-IsSound id m h
  made-IsSound (listens l) m h = on_change-IsSound l m h
  made-IsSound (leaves l) m h = heard m (keep (λ k. not (k == l)) m.listeners) h
  made-IsSound clears m h = heard m [] h

  run-keeps : (cs : List Call) (m : Manager) → IsSound m → IsSound (run networks cs m)
  unfolding run
  run-keeps [] m h = h
  run-keeps (c ∷ cs) m h = run-keeps cs (made networks c m) (made-IsSound c m h)

  -- Over any calls the active environment stays registered, and each environment stands under its own id, once.
  pub run-IsSound :
      (load_presets : Bool) (cs : List Call)
      → IsSound (run networks cs (new_manager networks load_presets))
  run-IsSound load_presets cs =
      run-keeps cs (new_manager networks load_presets) (new_manager-IsSound networks load_presets)
