-- ===== src/Plugin/Witnesses.antt =====
-- The theorems on the plugins, applied to a manager of two plugins (src/plugin).
use axionvera_sdk.Prelude.{
  ◌≤◌, ◌<◌, ◌≡◌, refl, inl, inr, ◌⊎◌, String, false, none, some, List, [], ◌∷◌, In, ok, err,
}
use axionvera_sdk.Prelude.Dict.{Dict, get, values}
use axionvera_sdk.Plugin.Types.{
  registered, active, error, uninstalled, Config, Instance, Error, invalid_transition, Dependency,
  Hook, returns, has_dependents, circular,
}
use axionvera_sdk.Plugin.SemVer.{SemVer, codes, parse_sem_ver, compare_sem_ver}
use axionvera_sdk.Plugin.Runs.{Manager, new_manager}
use axionvera_sdk.Plugin.Manager.{unregister, enable}
use axionvera_sdk.Plugin.Clients.{get_service_overrides, get_active}
use axionvera_sdk.Plugin.Calls.{registers, installs, uninstalls, enables, run}
use axionvera_sdk.Plugin.Versions.{flip, compare_sem_ver-flip}
use axionvera_sdk.Plugin.Grammar.{render, IsPrintable, parse_sem_ver-render}
use axionvera_sdk.Plugin.Topology.{Sorts, Refuses, topological_sort_cases}
use axionvera_sdk.Plugin.Histories.{Moves, IsDown, run-Moves, run-IsDown}
use axionvera_sdk.Plugin.Keyed.{IsKeyed, run-IsKeyed}
use axionvera_sdk.Plugin.Order.{topological_sort}
use axionvera_sdk.Plugin.Satisfied.{IsSatisfied, install-IsSatisfied}
use axionvera_sdk.Plugin.Departed.{unregister-leaves}
use axionvera_sdk.Plugin.Overrides.{last_given, get_service_overrides-last}
use axionvera_sdk.Plugin.Standing.{Stands}
use axionvera_sdk.Plugin.Enabling.{MayEnable, HasOnEnable, Fails, enable_cases}
use axionvera_sdk.Plugin.Tests.{
  plugins, by_code, by_code-flip, base, app, faulty, needs, settings, both, ready,
}

abbrev two : Dict Config
two = ("app", app) ∷ ("base", base) ∷ []

topological_sort_cases_example : Sorts two ⊎ Refuses two
topological_sort_cases_example = topological_sort_cases two

-- Two plugins that depend on each other, and one that depends on them.
abbrev ring : Dict Config
ring =
    (
      "top",
      record app { manifest = record app.manifest { dependencies = some (needs "app" "" ∷ []) } },
    )
    ∷ ("app", app)
    ∷ (
      "base",
      record base { manifest = record base.manifest { dependencies = some (needs "app" "" ∷ []) } },
    )
    ∷ []

ring_refused : topological_sort ring ≡ some (err (circular (("app" ∷ "base" ∷ "app" ∷ []) ∷ [])))
unfolding plugins
ring_refused = refl

abbrev version : SemVer
version = record {
  major = 1;
  minor = 20;
  patch = 3;
  pre_release = some (codes "rc.1");
  build_metadata = none;
}

version-IsPrintable : IsPrintable version
version-IsPrintable = record {
  pre_release_IsPart = ((refl, (refl, (refl, (refl, tt)))), λ e. cc);
  build_metadata_IsPart = tt;
}

parse_sem_ver-render_example :
    (parse_sem_ver (render version) ≡ some version)
    × (parse_sem_ver (b'v' ∷ render version) ≡ some version)
parse_sem_ver-render_example = parse_sem_ver-render version version-IsPrintable

abbrev release : SemVer
release = record version { pre_release = none }

compare_sem_ver-flip_example :
    compare_sem_ver by_code release version ≡ flip (compare_sem_ver by_code version release)
compare_sem_ver-flip_example = compare_sem_ver-flip by_code by_code-flip version release

abbrev at : String → Manager → Instance
at id m = elim (get id m.plugins) [
  | none ↦ record {
    serial = 0;
    config = base;
    state = registered;
    last_validation = none;
    last_error = none;
  }
  | some p ↦ p
]

run-Moves_example :
    ((p : Instance) × (get "base" both.plugins ≡ some p)
      × (p.serial ≡ (at "base" ready).serial)
      × Moves p.state (at "base" ready).state)
    ⊎ ((both.next ≤ (at "base" ready).serial) × ((at "base" ready).serial < ready.next))
unfolding plugins
run-Moves_example =
    run-Moves by_code 9 (installs "base" ∷ installs "app" ∷ []) both "base" (at "base" ready) refl

abbrev gone : Manager
gone = run by_code 9 (registers base ∷ uninstalls "base" ∷ []) (new_manager settings)

run-IsDown_example :
    IsDown (at "base" (run by_code 9 (installs "base" ∷ enables "base" ∷ []) gone)).state
unfolding plugins
run-IsDown_example =
    run-IsDown by_code 9 settings (registers base ∷ uninstalls "base" ∷ [])
      (installs "base" ∷ enables "base" ∷ []) "base" (at "base" gone)
      (at "base" (run by_code 9 (installs "base" ∷ enables "base" ∷ []) gone)) refl refl refl
      (inr refl)

both-IsKeyed : IsKeyed both
both-IsKeyed = run-IsKeyed by_code 9 settings (registers app ∷ registers base ∷ [])

run-IsKeyed_example :
    IsKeyed (run by_code 9 (registers app ∷ registers base ∷ []) (new_manager settings))
run-IsKeyed_example = run-IsKeyed by_code 9 settings (registers app ∷ registers base ∷ [])

abbrev based : Manager
based = run by_code 9 (registers app ∷ registers base ∷ installs "base" ∷ []) (new_manager settings)

install-IsSatisfied_example : IsSatisfied by_code based (needs "base" "1.0.0")
unfolding plugins
install-IsSatisfied_example =
    install-IsSatisfied by_code 2 "app" based (at "app" based) (needs "base" "1.0.0" ∷ [])
      (needs "base" "1.0.0") refl (λ e. cc) (λ e. cc) refl refl (inl refl) refl

-- App depends on base, and is uninstalled before base is taken out.
abbrev parted : Manager
parted =
    run by_code 9 (registers app ∷ registers base ∷ uninstalls "app" ∷ []) (new_manager settings)

parted-IsKeyed : IsKeyed parted
parted-IsKeyed =
    run-IsKeyed by_code 9 settings (registers app ∷ registers base ∷ uninstalls "app" ∷ [])

unregister-leaves_example :
    (get "base" (unregister "base" parted).0.plugins ≡ none)
    × ((q : Instance) (ds : List Dependency) (d : Dependency)
        → In q (values parted.plugins)
        → q.config.manifest.dependencies ≡ some ds
        → In d ds
        → d.plugin_id ≡ "base"
        → q.state ≡ uninstalled)
unfolding plugins
unregister-leaves_example = unregister-leaves "base" parted parted-IsKeyed refl

-- While app is only registered, base stays.
held : (unregister "base" both).1 ≡ err (has_dependents "base" ("app" ∷ []))
unfolding plugins
held = refl

get_service_overrides-last_example :
    get "cache" (get_service_overrides ready) ≡ last_given "cache" (get_active ready)
unfolding plugins
get_service_overrides-last_example =
    get_service_overrides-last ready "cache" ((refl, tt), ((refl, tt), tt))

abbrev idle : Manager
idle =
    run by_code 9 (registers faulty ∷ installs "faulty" ∷ [])
      (new_manager (record settings { auto_enable = some false }))

enable_cases_example :
    ((¬ MayEnable (at "faulty" idle).state)
      × (enable "faulty" idle
          ≡ (idle, err (invalid_transition "faulty" (at "faulty" idle).state active))))
    ⊎ (MayEnable (at "faulty" idle).state
        × ((((enable "faulty" idle).1 ≡ ok tt)
              × Stands (enable "faulty" idle).0 (at "faulty" idle) active
              × ((hook : Hook) → HasOnEnable (at "faulty" idle) hook → hook idle.ran ≡ returns))
            ⊎ ((e : Error) × ((enable "faulty" idle).1 ≡ err e)
                × Stands (enable "faulty" idle).0 (at "faulty" idle) error
                × ((hook : Hook) × HasOnEnable (at "faulty" idle) hook × Fails hook idle.ran))))
unfolding plugins
enable_cases_example = enable_cases "faulty" idle (at "faulty" idle) refl refl (λ e. cc)
