-- ===== src/Plugin/Calls.antt =====
-- Lists of calls of a PluginManager (src/plugin/pluginManager.ts) and of what its calls left pending.
use Prim.Native.Nat.{Ordering}
use axionvera_sdk.Prelude.{ℕ, String, List, [], ◌∷◌}
use axionvera_sdk.Plugin.Types.{Config}
use axionvera_sdk.Plugin.Runs.{Manager}
use axionvera_sdk.Plugin.Manager.{
  register, unregister, install, uninstall, enable, disable, install_all, enable_all, run_pending,
}
use axionvera_sdk.Plugin.Clients.{process_client_options, apply_to_client}

pub data Call : Type 0 where
  registers : Config → Call
  unregisters installs uninstalls enables disables : String → Call
  installs_all enables_all : Call
  processes_options applies_to_client : ℕ → Call
  runs_pending : Call

module _ (collate : List ℕ → List ℕ → Ordering) (f : ℕ) where
  -- A call that throws leaves the manager as it is then.
  unfoldable pub step : Call → Manager → Manager
  step (registers c) m = (register collate c m).0
  step (unregisters id) m = (unregister id m).0
  step (installs id) m = (install collate f id m).0
  step (uninstalls id) m = (uninstall id m).0
  step (enables id) m = (enable id m).0
  step (disables id) m = (disable id m).0
  step installs_all m = (install_all collate f m).0
  step enables_all m = (enable_all m).0
  step (processes_options o) m = (process_client_options o m).0
  step (applies_to_client c) m = (apply_to_client c m).0
  step runs_pending m = (run_pending collate f m).0

  unfoldable pub run : List Call → Manager → Manager
  run [] m = m
  run (c ∷ cs) m = run cs (step c m)
