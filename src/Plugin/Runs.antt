-- ===== src/Plugin/Runs.antt =====
-- src/plugin/pluginManager.ts: the fields of PluginManager and how its methods read and change them. A method
-- is a `Run`: it gives the manager after it and returns or throws. It runs to its end before the next one
-- starts; what a method starts and does not await is `pending`. An instance is an object that a method holds
-- while the map may lose it, so it is found by its id and its serial number.
use axionvera_sdk.Prelude.{
  ℕ, suc, String, Bool, true, false, Option, none, some, List, [], Outcome, ok, err, if◌then◌else◌,
  ◌==◌, or_else,
}
use axionvera_sdk.Prelude.Dict.{Dict, get, set}
use axionvera_sdk.Plugin.Types.{
  State, error, Error, thrown, Answer, returns, throws, rejects, Hook, Hooks, Instance,
  ManagerConfig,
}
use axionvera_sdk.Plugin.Lifecycle.{transition_state}

-- What runs later: the rejection of an `onRegister`, and an install that `register` starts.
pub data Task : Type 0 where
  rejected : Instance → Error → Task
  auto_installs : Instance → Task

-- `next` numbers the instances, `ran` counts the hooks that ran, `used` has the calls of `use` on a client.
pub record Manager : Type 0 where
  pub auto_install : Bool
  pub auto_enable : Bool
  pub validate_on_register : Bool
  pub sdk_version : String
  pub allow_incompatible : Bool
  pub plugins : Dict Instance
  pub clients : List ℕ
  pub pending : List Task
  pub next : ℕ
  pub ran : ℕ
  pub used : List (ℕ × ℕ)

unfoldable pub new_manager : ManagerConfig → Manager
new_manager c = record {
  auto_install = or_else c.auto_install false;
  auto_enable = or_else c.auto_enable true;
  validate_on_register = or_else c.validate_on_register true;
  sdk_version = or_else c.sdk_version "0.0.0";
  allow_incompatible = or_else c.allow_incompatible false;
  plugins = [];
  clients = [];
  pending = [];
  next = 0;
  ran = 0;
  used = [];
}

abbrev pub Result : Type 0
Result = Outcome Error (Unit {0})

abbrev pub Run : Type 0
Run = Manager → Manager × Result

abbrev pub id_of : Instance → String
id_of p = p.config.manifest.id

abbrev pub stop : Run
stop m = (m, ok tt)

abbrev pub raise : Error → Run
raise e m = (m, err e)

-- `await p; q`
unfoldable pub seq : Run → Run → Run
seq p q m = let (t, r) = p m in elim r [ err e ↦ (t, err e) | ok _ ↦ q t ]

-- `try { p } catch (e) { handler }`
unfoldable pub try_catch : Run → (Error → Run) → Run
try_catch p handler m = let (t, r) = p m in elim r [ err e ↦ handler e t | ok _ ↦ (t, ok tt) ]

unfoldable pub when : Bool → Run → Run
when test p m = if test then p m else (m, ok tt)

-- The instance in the map, if it is this one still.
unfoldable pub found : Instance → Option Instance → Option Instance
found p none = none
found p (some q) = if q.serial == p.serial then some q else none

unfoldable pub current : Instance → Manager → Instance
unfolding found get
current p m = or_else (found p (get (id_of p) m.plugins)) p

unfoldable pub put : String → Instance → Manager → Manager
unfolding set
put id q m = record m { plugins = set id q m.plugins }

-- The assignments to fields of the instance.
unfoldable pub update : Instance → (Instance → Instance) → Manager → Manager
unfolding found get put
update p change m = elim (found p (get (id_of p) m.plugins)) [
  | none ↦ m
  | some q ↦ put (id_of p) (change q) m
]

abbrev pub with_state : State → Instance → Instance
with_state s q = record q { state = s }

abbrev pub with_error : Error → Instance → Instance
with_error e q = record q { state = error; last_error = some e }

-- `instance.state = transitionState(id, instance.state, target)`
unfoldable pub move : Instance → State → Run
move p target m = elim (transition_state (id_of p) (current p m).state target) [
  | err e ↦ (m, err e)
  | ok s ↦ (update p (with_state s) m, ok tt)
]

abbrev pub awaited : Answer → Result
awaited returns = ok tt
awaited (throws e) = err (thrown e)
awaited (rejects e) = err (thrown e)

-- Where only the call itself is in the `try`, and its promise is not awaited.
abbrev pub not_awaited : Answer → Result
not_awaited returns = ok tt
not_awaited (throws e) = err (thrown e)
not_awaited (rejects e) = ok tt

abbrev pub tick : Manager → Manager
tick m = record m { ran = suc m.ran }

-- `if (hook) await hook()`
unfoldable pub call_hook : Option Hook → Run
call_hook none m = (m, ok tt)
call_hook (some hook) m = (tick m, awaited (hook m.ran))

abbrev pub hook_of : (Hooks → Option Hook) → Instance → Option Hook
hook_of field p = elim p.config.hooks [ none ↦ none | some h ↦ field h ]

unfoldable pub call_on_error : Option (Error → Hook) → Error → Run
call_on_error none e m = (m, ok tt)
call_on_error (some hook) e m = (tick m, not_awaited (hook e m.ran))

abbrev pub on_error_of : Instance → Option (Error → Hook)
on_error_of p = elim p.config.hooks [ none ↦ none | some h ↦ h.on_error ]

unfoldable pub set_plugin_error : Instance → Error → Run
set_plugin_error p e m = call_on_error (on_error_of p) e (update p (with_error e) m)

-- `try { await hook() } catch (e) { this.setPluginError(instance, e); throw e }`
unfoldable pub guarded : (Hooks → Option Hook) → Instance → Run
guarded field p =
    try_catch (call_hook (hook_of field p)) (λ e. seq (set_plugin_error p e) (raise e))
