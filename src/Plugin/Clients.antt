-- ===== src/Plugin/Clients.antt =====
-- src/plugin/pluginManager.ts: what the active plugins give to a client, and the queries. The plugins come in
-- the order of the map; a client, a service, a middleware and the options of a client are numbers.
use axionvera_sdk.Prelude.{
  ℕ, String, Bool, Option, none, some, List, [], ◌∷◌, ◌++◌, map, Outcome, ok, err, if◌then◌else◌,
  or_else, keep, any, ◌==◌, length,
}
use axionvera_sdk.Prelude.Dict.{Dict, get, set, has, values}
use axionvera_sdk.Plugin.Types.{State, active, Error, Instance, Hook}
use axionvera_sdk.Plugin.Lifecycle.{is}
use axionvera_sdk.Plugin.Manager.{is_ready}
use axionvera_sdk.Plugin.Runs.{Manager, Run, seq, try_catch, tick, awaited, set_plugin_error}

abbrev pub get_plugin : String → Manager → Option Instance
get_plugin id m = get id m.plugins

abbrev pub has_plugin : String → Manager → Bool
has_plugin id m = has id m.plugins

abbrev pub get_all : Manager → List Instance
get_all m = values m.plugins

abbrev pub size : Manager → ℕ
size m = length m.plugins

abbrev pub get_installed : Manager → List Instance
get_installed m = keep (λ p. is_ready p.state) (get_all m)

abbrev pub get_active : Manager → List Instance
get_active m = keep (λ p. is p.state active) (get_all m)

abbrev pub get_by_state : State → Manager → List Instance
get_by_state s m = keep (λ p. is p.state s) (get_all m)

-- `Object.assign`
unfoldable pub assign : Dict ℕ → Dict ℕ → Dict ℕ
assign m [] = m
assign m ((k, v) ∷ more) = assign (set k v m) more

abbrev pub services_of : Instance → Dict ℕ
services_of p = or_else p.config.services []

unfoldable pub add_services : Dict ℕ → List Instance → Dict ℕ
add_services m [] = m
add_services m (p ∷ ps) = add_services (assign m (services_of p)) ps

unfoldable pub get_service_overrides : Manager → Dict ℕ
get_service_overrides m = add_services [] (get_active m)

abbrev pub middleware_of : Instance → List ℕ
middleware_of p = or_else p.config.middleware []

unfoldable pub all_middleware : List Instance → List ℕ
all_middleware [] = []
all_middleware (p ∷ ps) = middleware_of p ++ all_middleware ps

unfoldable pub get_middleware : Manager → List ℕ
get_middleware m = all_middleware (get_active m)

abbrev pub before_client_init_of : Instance → Option (ℕ → ℕ → Outcome Error (Option ℕ))
before_client_init_of p = elim p.config.hooks [ none ↦ none | some h ↦ h.before_client_init ]

-- The loop over the active plugins: a hook that fails leaves the options as they were.
unfoldable pub process_with : List Instance → ℕ → Manager → Manager × Outcome Error ℕ
process_with [] options m = (m, ok options)
process_with (p ∷ ps) options m = elim (before_client_init_of p) [
  | none ↦ process_with ps options m
  | some hook ↦ elim (hook m.ran options) [
    | ok new ↦ process_with ps (or_else new options) (tick m)
    | err e ↦
        let (t, r) = set_plugin_error p e (tick m) in
        elim r [ err thrown_on ↦ (t, err thrown_on) | ok _ ↦ process_with ps options t ]
  ]
]

unfoldable pub process_client_options : ℕ → Manager → Manager × Outcome Error ℕ
process_client_options options m = process_with (get_active m) options m

abbrev pub after_client_init_of : Instance → Option (ℕ → Hook)
after_client_init_of p = elim p.config.hooks [ none ↦ none | some h ↦ h.after_client_init ]

unfoldable pub call_after_client_init : Option (ℕ → Hook) → ℕ → Run
call_after_client_init none client m = (m, ok tt)
call_after_client_init (some hook) client m = (tick m, awaited (hook client m.ran))

-- `client.use(mw)` for each middleware.
abbrev pub use_all : ℕ → List ℕ → Run
use_all client ws m = (record m { used = m.used ++ map (λ w. (client, w)) ws }, ok tt)

unfoldable pub apply_plugin_to_client : Instance → ℕ → Run
apply_plugin_to_client p client =
    seq (try_catch (call_after_client_init (after_client_init_of p) client) (set_plugin_error p))
      (use_all client (middleware_of p))

unfoldable pub apply_each : List Instance → ℕ → Run
apply_each [] client m = (m, ok tt)
apply_each (p ∷ ps) client m = seq (apply_plugin_to_client p client) (apply_each ps client) m

-- `clients.add(client)`
abbrev pub add_client : ℕ → Manager → Manager
add_client client m =
    if any (λ c. c == client) m.clients then m else record m { clients = m.clients ++ client ∷ [] }

unfoldable pub apply_to_client : ℕ → Run
apply_to_client client m = apply_each (get_active m) client (add_client client m)
