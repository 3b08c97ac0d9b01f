-- ===== src/Plugin/Steps.antt =====
-- The methods of PluginManager that register, enable and remove a plugin (src/plugin/pluginManager.ts) move the plugins as `Kept` says.
use Prim.Native.Nat.{Ordering}
use axionvera_sdk.Prelude.{
  none_of, ℕ, suc, ◌≡◌, refl, inl, inr, String, not, Option, none, some, List, Bool-cases,
  Option-cases, ◌&&◌, is_empty,
}
use axionvera_sdk.Prelude.Dict.{get, has}
use axionvera_sdk.Plugin.Types.{
  registered, active, disabled, uninstalled, Instance, Hook, Config, Answer, returns, throws,
  rejects,
}
use axionvera_sdk.Plugin.Lifecycle.{transition_state-registered}
use axionvera_sdk.Plugin.Validation.{validate_plugin}
use axionvera_sdk.Plugin.Runs.{Manager, Run, id_of, put}
use axionvera_sdk.Plugin.Manager.{
  with_plugin, enable, disable, uninstall, installed_dependents, remove, unregister,
  registered_with, call_on_register, new_instance, add_instance, register,
}
use axionvera_sdk.Plugin.Keeps.{
  IsStable, Keeps, seq-Keeps, try_catch-Keeps, when-Keeps, move-Keeps, call_hook-Keeps,
  set_plugin_error-Keeps, guarded-Keeps, same-Keeps,
}

module _ (K : Manager → Manager → Type 0) (stable : IsStable K) where
  pub with_plugin-Keeps :
      (id : String) (body : Instance → Run)
      → ((p : Instance) → Keeps K (body p))
      → Keeps K (with_plugin id body)
  unfolding with_plugin
  with_plugin-Keeps id body h = record {
    keeps = λ m. elim (Option-cases (get id m.plugins)) [
      | inl missing ↦ rw (missing, with_plugin) (stable.same m m refl refl)
      | inr (p, there) ↦ rw (there, with_plugin) ((h p).keeps m)
    ];
  }

  pub enable-Keeps : (id : String) → Keeps K (enable id)
  unfolding enable
  enable-Keeps id = with_plugin-Keeps _ _ (λ p. when-Keeps K stable _ _ (
      seq-Keeps K stable _ _ (move-Keeps K stable p active (λ e. cc)) (guarded-Keeps K stable _ p)))

  pub disable-Keeps : (id : String) → Keeps K (disable id)
  unfolding disable
  disable-Keeps id = with_plugin-Keeps _ _ (λ p. when-Keeps K stable _ _ (
      seq-Keeps K stable _ _ (move-Keeps K stable p disabled (λ e. cc))
        (guarded-Keeps K stable _ p)))

  pub uninstall-Keeps : (id : String) → Keeps K (uninstall id)
  unfolding uninstall
  uninstall-Keeps id = with_plugin-Keeps _ _ (λ p. when-Keeps K stable _ _ (
      seq-Keeps K stable _ _ (when-Keeps K stable _ _ (disable-Keeps id)) (
        seq-Keeps K stable _ _
          (try_catch-Keeps K stable _ _ (call_hook-Keeps K stable _)
            (set_plugin_error-Keeps K stable p))
          (move-Keeps K stable p uninstalled (λ e. cc)))))

  -- A field of the map's entry is given as a run on the state that it reads.
  pub at-Keeps :
      (body : Manager → Run) → ((t : Manager) → Keeps K (body t)) → Keeps K (λ m. body m m)
  at-Keeps body h = record { keeps = λ m. (h m).keeps m }

  remove-Keeps : (id : String) → Keeps K (remove id)
  remove-Keeps id = record { keeps = λ m. stable.removed id m }

  pub unregister-Keeps : (id : String) → Keeps K (unregister id)
  unfolding unregister
  unregister-Keeps id = with_plugin-Keeps _ _ (λ p. record {
    keeps = λ m. elim (Bool-cases (is_empty (installed_dependents m id))) [
      | inl free ↦
          let gone = seq-Keeps K stable _ _ (when-Keeps K stable _ _ (uninstall-Keeps id)) (
            seq-Keeps K stable _ _
              (at-Keeps _
                (λ t. when-Keeps K stable _ _ (move-Keeps K stable p uninstalled (λ e. cc))))
              (remove-Keeps id)) in
          rw free (gone.keeps m)
      | inr held ↦ rw held (stable.same m m refl refl)
    ];
  })

  registered_with-Keeps : (p : Instance) (a : Answer) → Keeps K (registered_with p a)
  registered_with-Keeps p returns = same-Keeps K stable _ (λ m. (refl, refl))
  registered_with-Keeps p (throws e) = same-Keeps K stable _ (λ m. (refl, refl))
  registered_with-Keeps p (rejects e) = same-Keeps K stable _ (λ m. (refl, refl))

  call_on_register-Keeps : (o : Option Hook) (p : Instance) → Keeps K (call_on_register o p)
  unfolding call_on_register
  call_on_register-Keeps none p = same-Keeps K stable _ (λ m. (refl, refl))
  call_on_register-Keeps (some hook) p = record {
    keeps = λ m. (registered_with-Keeps p (hook m.ran)).keeps m;
  }

  module _ (collate : List ℕ → List ℕ → Ordering) where
    add_instance-Kept :
        (p : Instance) (m : Manager)
        → p.serial ≡ m.next
        → get (id_of p) m.plugins ≡ none
        → K m (add_instance collate p m).0
    unfolding add_instance
    add_instance-Kept p m new free =
        stable.trans m (record (put (id_of p) p m) { next = suc m.next }) _
          (stable.added p m new free)
          ((seq-Keeps K stable _ _ (call_on_register-Keeps _ p) (
              when-Keeps K stable m.auto_install _
                (same-Keeps K stable _ (λ t. (refl, refl))))).keeps
            _)

    pub register-Keeps : (c : Config) → Keeps K (register collate c)
    unfolding register
    register-Keeps c = record {
      keeps = λ m.
          let v = validate_plugin collate c (some m.sdk_version) in
          elim (Bool-cases (has c.manifest.id m.plugins)) [
            | inl taken ↦ rw taken (stable.same m m refl refl)
            | inr free ↦
                elim (Bool-cases
                  (m.validate_on_register && (not v.valid && not m.allow_incompatible))) [
                    | inl bad ↦ rw (free, bad) (stable.same m m refl refl)
                    | inr good ↦
                        rw (free, good, transition_state-registered c.manifest.id)
                          (add_instance-Kept (new_instance m.next c v registered) m refl
                            (none_of (get c.manifest.id m.plugins) free))
                  ]
          ];
    }
