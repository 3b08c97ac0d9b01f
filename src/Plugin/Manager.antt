-- ===== src/Plugin/Manager.antt =====
-- src/plugin/pluginManager.ts: the methods that change the plugins of a manager. `install` takes fuel, one
-- unit for each level of its recursion; where it runs out, the engine throws.
use Prim.Native.Nat.{Ordering}
use axionvera_sdk.Prelude.{
  ℕ, zero, suc, String, Bool, false, not, ◌&&◌, ◌||◌, Option, none, some, List, [], ◌∷◌, ◌++◌, map,
  Outcome, ok, err, if◌then◌else◌, is_empty, keep, any, str_eq,
}
use axionvera_sdk.Prelude.Dict.{Dict, get, set, delete, has, values}
use axionvera_sdk.Plugin.Types.{
  State, ValidationResult, unregistered, registered, installed, active, disabled, uninstalled,
  Error, not_found, already_registered, invalid_plugin, has_dependents, unmet_dependencies, thrown,
  stack_overflow, Answer, returns, throws, rejects, Hook, Instance, Config, Dependency,
}
use axionvera_sdk.Plugin.Lifecycle.{is, is_valid_transition, transition_state}
use axionvera_sdk.Plugin.Validation.{validate_plugin, validate_dependencies, dependencies_of}
use axionvera_sdk.Plugin.Order.{topological_sort}
use axionvera_sdk.Plugin.Runs.{
  Task, rejected, auto_installs, Manager, Run, id_of, raise, seq, try_catch, when, current, put,
  move, call_hook, hook_of, set_plugin_error, guarded, tick,
}

-- A method on an id that the map does not have throws.
unfoldable pub with_plugin : String → (Instance → Run) → Run
with_plugin id body m = elim (get id m.plugins) [
  | none ↦ (m, err (not_found id))
  | some p ↦ body p m
]

abbrev pub is_ready : State → Bool
is_ready s = is s installed || is s active

-- `getInstalled`, by id.
unfoldable pub add_ready : List Instance → Dict Instance → Dict Instance
add_ready [] m = m
add_ready (p ∷ ps) m = if is_ready p.state then add_ready ps (set (id_of p) p m) else add_ready ps m

abbrev pub installed_map : Manager → Dict Instance
installed_map m = add_ready (values m.plugins) []

unfoldable pub enable : String → Run
enable id =
    with_plugin id
      (λ p. when (not (is p.state active)) (seq (move p active) (guarded (λ h. h.on_enable) p)))

unfoldable pub disable : String → Run
disable id =
    with_plugin id (λ p.
      when (not (is p.state disabled)) (seq (move p disabled) (guarded (λ h. h.on_disable) p)))

unfoldable pub uninstall : String → Run
uninstall id = with_plugin id (λ p. when (not (is p.state uninstalled)) (
    seq (when (is p.state active) (disable id)) (
      seq (try_catch (call_hook (hook_of (λ h. h.on_uninstall) p)) (set_plugin_error p))
        (move p uninstalled))))

abbrev pub depends_on : String → Config → Bool
depends_on id c = any (λ d. str_eq d.plugin_id id) (dependencies_of c)

abbrev pub get_dependents_of : Manager → String → List String
get_dependents_of m id = map id_of (keep (λ p. depends_on id p.config) (values m.plugins))

abbrev pub is_left : Option Instance → Bool
is_left none = false
is_left (some p) = not (is p.state uninstalled)

unfoldable pub installed_dependents : Manager → String → List String
installed_dependents m id = keep (λ i. is_left (get i m.plugins)) (get_dependents_of m id)

abbrev pub remove : String → Run
remove id m = (record m { plugins = delete id m.plugins }, ok tt)

unfoldable pub unregister : String → Run
unregister id = with_plugin id (λ p m.
    let dependents = installed_dependents m id in
    if is_empty dependents
    then (seq (when (is_ready p.state) (uninstall id))
        (seq
          (λ t. when (is_valid_transition (current p t).state uninstalled) (move p uninstalled) t)
          (remove id))
        m)
    else (m, err (has_dependents id dependents)))

abbrev pub wait_for : Task → Manager → Manager
wait_for task m = record m { pending = m.pending ++ task ∷ [] }

-- `Promise.resolve(onRegister()).catch(…)`: the call itself may throw.
abbrev pub registered_with : Instance → Answer → Run
registered_with p returns m = (tick m, ok tt)
registered_with p (throws e) m = (tick m, err (thrown e))
registered_with p (rejects e) m = (wait_for (rejected p (thrown e)) (tick m), ok tt)

unfoldable pub call_on_register : Option Hook → Instance → Run
call_on_register none p m = (m, ok tt)
call_on_register (some hook) p m = registered_with p (hook m.ran) m

abbrev pub new_instance : ℕ → Config → ValidationResult → State → Instance
new_instance serial c v s = record {
  serial = serial;
  config = c;
  state = s;
  last_validation = some v;
  last_error = none;
}

abbrev pub start_install : Instance → Run
start_install p m = (wait_for (auto_installs p) m, ok tt)

-- The dependencies that are to be installed first.
abbrev pub is_waited_for : Option Instance → Dependency → Bool
is_waited_for none d = false
is_waited_for (some q) d = not d.optional && not (is_ready q.state)

module _ (collate : List ℕ → List ℕ → Ordering) where
  unfoldable pub add_instance : Instance → Run
  add_instance p m =
      seq (call_on_register (hook_of (λ h. h.on_register) p) p)
        (when m.auto_install (start_install p)) (record (put (id_of p) p m) { next = suc m.next })

  unfoldable pub register : Config → Run
  register c m =
      let id = c.manifest.id in
      let v = validate_plugin collate c (some m.sdk_version) in
      if has id m.plugins
      then (m, err (already_registered id))
      else if m.validate_on_register && (not v.valid && not m.allow_incompatible)
      then (m, err (invalid_plugin id v.errors))
      else elim (transition_state id unregistered registered) [
        | err e ↦ (m, err e)
        | ok s ↦ add_instance (new_instance m.next c v s) m
      ]

  -- The check of the dependencies against the installed plugins.
  unfoldable pub check_dependencies : Instance → Run
  check_dependencies p m =
      let v = validate_dependencies collate (dependencies_of p.config) (installed_map m) in
      if v.valid then (m, ok tt) else (m, err (unmet_dependencies (id_of p) v.errors))

  -- The loop that installs the dependencies; `go` is the recursive call.
  unfoldable pub install_dependencies : (String → Run) → List Dependency → Run
  install_dependencies go [] m = (m, ok tt)
  install_dependencies go (d ∷ ds) m =
      seq (when (is_waited_for (get d.plugin_id m.plugins) d) (go d.plugin_id))
        (install_dependencies go ds) m

  unfoldable pub install_one : (String → Run) → Instance → Run
  install_one go p = seq (check_dependencies p) (
      seq (install_dependencies go (dependencies_of p.config)) (
        seq (move p installed)
          (seq (guarded (λ h. h.on_install) p) (λ m. when m.auto_enable (enable (id_of p)) m))))

  unfoldable pub install : ℕ → String → Run
  install zero id = raise stack_overflow
  install (suc f) id =
      with_plugin id (λ p. when (not (is_ready p.state)) (install_one (install f) p))

  abbrev pub state_at : Option Instance → Bool
  state_at none = false
  state_at (some p) = not (is_ready p.state)

  unfoldable pub install_ids : ℕ → List String → Run
  install_ids f [] m = (m, ok tt)
  install_ids f (id ∷ ids) m =
      seq (when (state_at (get id m.plugins)) (install f id)) (install_ids f ids) m

  abbrev pub configs : Dict Instance → Dict Config
  configs = map λ e. (e.0, e.1.config)

  -- The order of the dependencies, and that of registration where there is a cycle.
  abbrev pub order_or_keys : Dict Instance → Option (Outcome Error (List String)) → List String
  order_or_keys plugins none = map (λ e. e.0) plugins
  order_or_keys plugins (some (err e)) = map (λ e. e.0) plugins
  order_or_keys plugins (some (ok ids)) = ids

  unfoldable pub get_dependency_sorted : Manager → List String
  get_dependency_sorted m = order_or_keys m.plugins (topological_sort (configs m.plugins))

  unfoldable pub install_all : ℕ → Run
  install_all f m = install_ids f (get_dependency_sorted m) m

  -- What was left pending: its errors end in the state of the plugin.
  unfoldable pub run_task : ℕ → Task → Run
  run_task f (rejected p e) = set_plugin_error p e
  run_task f (auto_installs p) = try_catch (install f (id_of p)) (set_plugin_error p)

  unfoldable pub run_first : ℕ → List Task → Run
  run_first f [] m = (m, ok tt)
  run_first f (task ∷ tasks) m = run_task f task (record m { pending = tasks })

  unfoldable pub run_pending : ℕ → Run
  run_pending f m = run_first f m.pending m

abbrev is_installed : Option Instance → Bool
is_installed none = false
is_installed (some p) = is p.state installed

unfoldable pub enable_ids : List String → Run
enable_ids [] m = (m, ok tt)
enable_ids (id ∷ ids) m =
    seq (when (is_installed (get id m.plugins)) (enable id)) (enable_ids ids) m

-- The loop over the live map: no call in it adds or removes a plugin.
unfoldable pub enable_all : Run
enable_all m = enable_ids (map id_of (values m.plugins)) m
