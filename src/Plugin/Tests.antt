-- ===== src/Plugin/Tests.antt =====
-- Two plugins, one of which depends on the other, and calls of a manager of them (src/plugin).
use Prim.Native.Nat.{compare, Ordering}
use axionvera_sdk.Prelude.{ℕ, ◌≡◌, refl, String, true, false, Option, none, some, List, [], ◌∷◌}
use axionvera_sdk.Prelude.Dict.{Dict, get, set, delete}
use axionvera_sdk.Plugin.Types.{
  State, State-discrete, registered, active, Dependency, Hooks, Config, ManagerConfig, throws,
}
use axionvera_sdk.Plugin.Lifecycle.{is_valid_transition, transition_state, valid_transitions}
use axionvera_sdk.Plugin.SemVer.{
  codes, parse_sem_ver, match_groups, number, literal, part, part_after, span, value_from,
  without_v, or_compare, compare_sem_ver, compare_pre_release, compare_parts, compare_part,
  parse_int, split, satisfies_min_version,
}
use axionvera_sdk.Plugin.Validation.{
  is_plugin_id, is_plugin_id_from, validate_plugin, compatibility_errors, compatibility_warnings,
  dependency_errors, sdk_errors, report_bound, result_of, validate_dependencies, unmet_among, unmet,
}
use axionvera_sdk.Plugin.Cycles.{
  targets, from_first, without_last, leave, close_cycle, visit, dfs, search_roots,
  detect_circular_dependencies,
}
use axionvera_sdk.Plugin.Order.{
  visit as visit_sorted, visit_all, known, sort_from, topological_sort,
}
use axionvera_sdk.Plugin.Runs.{
  Manager, new_manager, seq, try_catch, when, found, current, put, update, move, call_hook,
  call_on_error, set_plugin_error, guarded,
}
use axionvera_sdk.Plugin.Manager.{
  with_plugin, add_ready, enable, disable, uninstall, installed_dependents, unregister,
  call_on_register, add_instance, register, check_dependencies, install_dependencies, install_one,
  install, install_ids, get_dependency_sorted, install_all, run_task, run_first, run_pending,
  enable_ids, enable_all,
}
use axionvera_sdk.Plugin.Clients.{assign, add_services, get_service_overrides}
use axionvera_sdk.Plugin.Calls.{registers, installs, step, run}
use axionvera_sdk.Plugin.Versions.{flip, compare-flip, or_compare_cong}
use axionvera_sdk.Plugin.Grammar.{digits, decimal}

unfoldable pub plugins : Unit {0}
unfolding get set delete State-discrete is_valid_transition transition_state valid_transitions
    parse_sem_ver match_groups number literal part part_after span value_from without_v
    compare_sem_ver compare_pre_release compare_parts compare_part parse_int split
    satisfies_min_version is_plugin_id is_plugin_id_from validate_plugin compatibility_errors
    compatibility_warnings dependency_errors sdk_errors report_bound result_of validate_dependencies
    unmet_among unmet targets from_first without_last leave close_cycle visit dfs search_roots
    detect_circular_dependencies visit_sorted visit_all known sort_from topological_sort new_manager
    seq try_catch when found current put update move call_hook call_on_error set_plugin_error
    guarded with_plugin add_ready enable disable uninstall installed_dependents unregister
    call_on_register add_instance register check_dependencies install_dependencies install_one
    install install_ids get_dependency_sorted install_all run_task run_first run_pending enable_ids
    enable_all assign add_services get_service_overrides step run digits decimal
plugins = tt

-- Texts in the order of their codes.
abbrev pub by_code : List ℕ → List ℕ → Ordering
by_code [] [] = Ordering.eq
by_code [] (d ∷ b) = Ordering.lt
by_code (c ∷ a) [] = Ordering.gt
by_code (c ∷ a) (d ∷ b) = or_compare (compare c d) (by_code a b)

pub by_code-flip : (a b : List ℕ) → by_code b a ≡ flip (by_code a b)
by_code-flip [] [] = refl
by_code-flip [] (d ∷ b) = refl
by_code-flip (c ∷ a) [] = refl
by_code-flip (c ∷ a) (d ∷ b) = or_compare_cong _ _ _ _ (compare-flip c d) (by_code-flip a b)

abbrev no_hooks : Hooks
no_hooks = record {
  on_register = none;
  on_install = none;
  on_enable = none;
  on_disable = none;
  on_uninstall = none;
  before_client_init = none;
  after_client_init = none;
  on_error = none;
}

abbrev pub needs : String → String → Dependency
needs id version = record { plugin_id = id; min_version = some version; optional = false }

abbrev plugin : String → String → List Dependency → Option Hooks → Dict ℕ → Config
plugin id version ds hooks services = record {
  manifest = record {
    id = id;
    name = id;
    version = version;
    description = none;
    compatibility = none;
    dependencies = some ds;
    keywords = none;
  };
  hooks = hooks;
  services = some services;
  middleware = none;
}

abbrev pub base : Config
base = plugin "base" "1.2.0" [] none (("cache", 1) ∷ [])

abbrev pub app : Config
app = plugin "app" "0.1.0" (needs "base" "1.0.0" ∷ []) none (("cache", 2) ∷ [])

-- It throws when it is enabled.
abbrev pub faulty : Config
faulty =
    plugin "faulty" "v2.0.0-rc.1" []
      (some (record no_hooks { on_enable = some (λ n. throws "no") })) []

abbrev pub settings : ManagerConfig
settings = record {
  auto_install = none;
  auto_enable = none;
  validate_on_register = none;
  sdk_version = none;
  allow_incompatible = none;
}

abbrev state_of : String → Manager → Option State
state_of id m = elim (get id m.plugins) [ none ↦ none | some p ↦ some p.state ]

abbrev pub both : Manager
both = run by_code 9 (registers app ∷ registers base ∷ []) (new_manager settings)

abbrev pub ready : Manager
ready = run by_code 9 (installs "base" ∷ installs "app" ∷ []) both

versions :
    (parse_sem_ver (codes "v1.20.3-rc.1+b7")
      ≡ some (record {
        major = 1;
        minor = 20;
        patch = 3;
        pre_release = some (codes "rc.1");
        build_metadata = some (codes "b7");
      }))
    × (parse_sem_ver (codes "1.2") ≡ none)
    × (parse_sem_ver (codes "1.2.3-") ≡ none)
    × (satisfies_min_version by_code "1.0.0-rc.2" "1.0.0-rc.10" ≡ false)
    × (satisfies_min_version by_code "1.0.0" "1.0.0-rc.10" ≡ true)
    × (satisfies_min_version by_code "1.0.0-1a" "1.0.0-1b" ≡ true)
unfolding plugins
versions = (refl, refl, refl, refl, refl, refl)

-- Before base is installed app is refused; then both are active, base first.
installs_in_order :
    (state_of "app" (install by_code 9 "app" both).0 ≡ some registered)
    × (state_of "app" ready ≡ some active)
    × (state_of "base" ready ≡ some active)
    × (state_of "app" (install_all by_code 9 both).0 ≡ some active)
    × (get_dependency_sorted by_code both ≡ "base" ∷ "app" ∷ [])
unfolding plugins
installs_in_order = (refl, refl, refl, refl, refl)
