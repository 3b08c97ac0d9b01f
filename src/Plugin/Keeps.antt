-- ===== src/Plugin/Keeps.antt =====
-- What every method of PluginManager (src/plugin/pluginManager.ts) does to a manager, from what its parts do: a
-- relation that the parts are in holds between the managers before and after each method.
use axionvera_sdk.Prelude.{
  suc, ◌≡◌, refl, ◌≢◌, inl, inr, String, Bool, true, false, Option, none, some, Outcome-cases,
}
use axionvera_sdk.Prelude.Dict.{get}
use axionvera_sdk.Plugin.Types.{State, registered, Error, Instance, Hook, Hooks}
use axionvera_sdk.Plugin.Manager.{remove}
use axionvera_sdk.Plugin.Runs.{
  Manager, Run, id_of, seq, try_catch, when, put, update, with_error, move, call_hook,
  call_on_error, on_error_of, hook_of, set_plugin_error, guarded, raise,
}

-- A relation on managers that what the methods do to the map of plugins is in.
pub record IsStable (K : Manager → Manager → Type 0) : Type 0 where
  pub same : (m t : Manager) → t.next ≡ m.next → t.plugins ≡ m.plugins → K m t
  pub trans : (a b c : Manager) → K a b → K b c → K a c
  pub moved :
      (p : Instance) (target : State) (m : Manager) → target ≢ registered → K m (move p target m).0
  pub broken : (p : Instance) (e : Error) (m : Manager) → K m (update p (with_error e) m)
  pub added :
      (p : Instance) (m : Manager)
      → p.serial ≡ m.next
      → get (id_of p) m.plugins ≡ none
      → K m (record (put (id_of p) p m) { next = suc m.next })
  pub removed : (id : String) (m : Manager) → K m (remove id m).0

-- A method that is in the relation, wherever it starts.
pub record Keeps (K : Manager → Manager → Type 0) (run : Run) : Type 0 where
  pub keeps : (m : Manager) → K m (run m).0

module _ (K : Manager → Manager → Type 0) (stable : IsStable K) where
  pub seq-Keeps : (p q : Run) → Keeps K p → Keeps K q → Keeps K (seq p q)
  unfolding seq
  seq-Keeps p q h k = record {
    keeps = λ m. elim (Outcome-cases (p m).1) [
      | inl (e, failed) ↦ rw (failed, seq) (h.keeps m)
      | inr (u, done) ↦
          rw (done, seq) (stable.trans m (p m).0 (q (p m).0).0 (h.keeps m) (k.keeps (p m).0))
    ];
  }

  pub try_catch-Keeps :
      (p : Run) (handler : Error → Run)
      → Keeps K p
      → ((e : Error) → Keeps K (handler e))
      → Keeps K (try_catch p handler)
  unfolding try_catch
  try_catch-Keeps p handler h k = record {
    keeps = λ m. elim (Outcome-cases (p m).1) [
      | inl (e, failed) ↦
          rw (failed, try_catch)
            (stable.trans m (p m).0 (handler e (p m).0).0 (h.keeps m) ((k e).keeps (p m).0))
      | inr (u, done) ↦ rw (done, try_catch) (h.keeps m)
    ];
  }

  -- A run that changes neither the map of plugins nor the number of the next instance.
  pub same-Keeps :
      (run : Run)
      → ((m : Manager) → ((run m).0.next ≡ m.next) × ((run m).0.plugins ≡ m.plugins))
      → Keeps K run
  same-Keeps run h = record { keeps = λ m. stable.same m (run m).0 (h m).0 (h m).1 }

  pub when-Keeps : (test : Bool) (p : Run) → Keeps K p → Keeps K (when test p)
  unfolding when
  when-Keeps true p h = record { keeps = λ m. h.keeps m }
  when-Keeps false p h = same-Keeps _ (λ m. (refl, refl))

  pub move-Keeps : (p : Instance) (target : State) → target ≢ registered → Keeps K (move p target)
  move-Keeps p target other = record { keeps = λ m. stable.moved p target m other }

  pub call_hook-Keeps : (o : Option Hook) → Keeps K (call_hook o)
  unfolding call_hook
  call_hook-Keeps none = same-Keeps _ (λ m. (refl, refl))
  call_hook-Keeps (some hook) = same-Keeps _ (λ m. (refl, refl))

  call_on_error-Keeps : (o : Option (Error → Hook)) (e : Error) → Keeps K (call_on_error o e)
  unfolding call_on_error
  call_on_error-Keeps none e = same-Keeps _ (λ m. (refl, refl))
  call_on_error-Keeps (some hook) e = same-Keeps _ (λ m. (refl, refl))

  pub set_plugin_error-Keeps : (p : Instance) (e : Error) → Keeps K (set_plugin_error p e)
  unfolding set_plugin_error
  set_plugin_error-Keeps p e = record {
    keeps = λ m.
        let t = update p (with_error e) m in
        stable.trans m t _ (stable.broken p e m) ((call_on_error-Keeps (on_error_of p) e).keeps t);
  }

  raise-Keeps : (e : Error) → Keeps K (raise e)
  raise-Keeps e = same-Keeps _ (λ m. (refl, refl))

  pub guarded-Keeps : (field : Hooks → Option Hook) (p : Instance) → Keeps K (guarded field p)
  unfolding guarded
  guarded-Keeps field p =
      try_catch-Keeps _ _ (call_hook-Keeps (hook_of field p))
        (λ e. seq-Keeps _ _ (set_plugin_error-Keeps p e) (raise-Keeps e))
