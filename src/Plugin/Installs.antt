-- ===== src/Plugin/Installs.antt =====
-- The methods of PluginManager that install plugins, and those that pass them to clients
-- (src/plugin/pluginManager.ts), move the plugins as `Kept` says.
use Prim.Native.Nat.{Ordering}
use axionvera_sdk.Prelude.{
  ℕ, zero, suc, refl, inl, inr, String, Option, none, some, List, [], ◌∷◌, arith, Option-cases,
  Outcome-cases, or_else,
}
use axionvera_sdk.Plugin.Types.{installed, Instance, Hook, Dependency}
use axionvera_sdk.Plugin.Runs.{
  Task, rejected, auto_installs, Manager, Run, id_of, set_plugin_error, tick,
}
use axionvera_sdk.Plugin.Manager.{
  check_dependencies, install_dependencies, install_one, install, install_ids, run_task, run_first,
  enable_ids,
}
use axionvera_sdk.Plugin.Clients.{
  before_client_init_of, process_with, call_after_client_init, apply_plugin_to_client, apply_each,
}
use axionvera_sdk.Plugin.Keeps.{
  IsStable, Keeps, seq-Keeps, try_catch-Keeps, when-Keeps, move-Keeps, set_plugin_error-Keeps,
  guarded-Keeps, same-Keeps,
}
use axionvera_sdk.Plugin.Steps.{with_plugin-Keeps, enable-Keeps, at-Keeps}

module _ (K : Manager → Manager → Type 0) (stable : IsStable K) where
  module _ (collate : List ℕ → List ℕ → Ordering) where
    check_dependencies-Keeps : (p : Instance) → Keeps K (check_dependencies collate p)
    unfolding check_dependencies
    check_dependencies-Keeps p = same-Keeps K stable _ (λ m. ground arith)

    install_dependencies-Keeps :
        (go : String → Run) (ds : List Dependency)
        → ((id : String) → Keeps K (go id))
        → Keeps K (install_dependencies collate go ds)
    unfolding install_dependencies
    install_dependencies-Keeps go [] h = same-Keeps K stable _ (λ m. (refl, refl))
    install_dependencies-Keeps go (d ∷ ds) h = at-Keeps K stable _ (λ t.
        seq-Keeps K stable _ _ (when-Keeps K stable _ _ (h d.plugin_id))
          (install_dependencies-Keeps go ds h))

    pub install-Keeps : (f : ℕ) (id : String) → Keeps K (install collate f id)
    unfolding install install_one
    install-Keeps zero id = same-Keeps K stable _ (λ m. (refl, refl))
    install-Keeps (suc f) id = with_plugin-Keeps K stable _ _ (λ p. when-Keeps K stable _ _ (
        seq-Keeps K stable _ _ (check_dependencies-Keeps p) (
          seq-Keeps K stable _ _
            (install_dependencies-Keeps (install collate f) _ (install-Keeps f))
            (seq-Keeps K stable _ _ (move-Keeps K stable p installed (λ e. cc)) (
              seq-Keeps K stable _ _ (guarded-Keeps K stable _ p) (
                at-Keeps K stable _
                  (λ t. when-Keeps K stable _ _ (enable-Keeps K stable (id_of p)))))))))

    pub install_ids-Keeps : (f : ℕ) (ids : List String) → Keeps K (install_ids collate f ids)
    unfolding install_ids
    install_ids-Keeps f [] = same-Keeps K stable _ (λ m. (refl, refl))
    install_ids-Keeps f (id ∷ ids) = at-Keeps K stable _ (λ t.
        seq-Keeps K stable _ _ (when-Keeps K stable _ _ (install-Keeps f id))
          (install_ids-Keeps f ids))

    run_task-Keeps : (f : ℕ) (task : Task) → Keeps K (run_task collate f task)
    unfolding run_task
    run_task-Keeps f (rejected p e) = set_plugin_error-Keeps K stable p e
    run_task-Keeps f (auto_installs p) =
        try_catch-Keeps K stable _ _ (install-Keeps f (id_of p)) (set_plugin_error-Keeps K stable p)

    pub run_first-Keeps : (f : ℕ) (tasks : List Task) → Keeps K (run_first collate f tasks)
    unfolding run_first
    run_first-Keeps f [] = same-Keeps K stable _ (λ m. (refl, refl))
    run_first-Keeps f (task ∷ tasks) = record {
      keeps = λ m.
          let t = record m { pending = tasks } in
          stable.trans m t _ (stable.same m t refl refl) ((run_task-Keeps f task).keeps t);
    }

  pub enable_ids-Keeps : (ids : List String) → Keeps K (enable_ids ids)
  unfolding enable_ids
  enable_ids-Keeps [] = same-Keeps K stable _ (λ m. (refl, refl))
  enable_ids-Keeps (id ∷ ids) = at-Keeps K stable _ (λ t.
      seq-Keeps K stable _ _ (when-Keeps K stable _ _ (enable-Keeps K stable id))
        (enable_ids-Keeps ids))

  call_after_client_init-Keeps :
      (o : Option (ℕ → Hook)) (client : ℕ) → Keeps K (call_after_client_init o client)
  unfolding call_after_client_init
  call_after_client_init-Keeps none client = same-Keeps K stable _ (λ m. (refl, refl))
  call_after_client_init-Keeps (some hook) client = same-Keeps K stable _ (λ m. (refl, refl))

  pub apply_each-Keeps : (ps : List Instance) (client : ℕ) → Keeps K (apply_each ps client)
  unfolding apply_each apply_plugin_to_client
  apply_each-Keeps [] client = same-Keeps K stable _ (λ m. (refl, refl))
  apply_each-Keeps (p ∷ ps) client =
      seq-Keeps K stable _ _
        (seq-Keeps K stable _ _
          (try_catch-Keeps K stable _ _ (call_after_client_init-Keeps _ client)
            (set_plugin_error-Keeps K stable p))
          (same-Keeps K stable _ (λ m. (refl, refl))))
        (apply_each-Keeps ps client)

  pub process_with-Kept :
      (ps : List Instance) (options : ℕ) (m : Manager) → K m (process_with ps options m).0
  unfolding process_with
  process_with-Kept [] options m = stable.same m m refl refl
  process_with-Kept (p ∷ ps) options m = elim (Option-cases (before_client_init_of p)) [
    | inl none_given ↦ rw (none_given, process_with) (process_with-Kept ps options m)
    | inr (hook, given) ↦
        let ticked = stable.same m (tick m) refl refl in
        elim (Outcome-cases (hook m.ran options)) [
          | inr (new, done) ↦
              rw (given, process_with)
                (rw (done, process_with)
                  (stable.trans m (tick m) _ ticked
                    (process_with-Kept ps (or_else new options) (tick m))))
          | inl (e, failed) ↦
              let (t, r) = set_plugin_error p e (tick m) in
              let put_in =
                stable.trans m (tick m) t ticked
                  ((set_plugin_error-Keeps K stable p e).keeps (tick m)) in
              elim (Outcome-cases r) [
                | inl (e2, thrown_on) ↦
                    rw (given, process_with) (rw (failed, process_with) (rw (thrown_on) put_in))
                | inr (u, set_done) ↦
                    rw (given, process_with)
                      (rw (failed, process_with)
                        (rw set_done (stable.trans m t _ put_in (process_with-Kept ps options t))))
              ]
        ]
  ]
