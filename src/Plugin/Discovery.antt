-- ===== src/Plugin/Discovery.antt =====
-- A registry of manifests in a cycle (src/plugin/registry.ts), and what it resolves.
use axionvera_sdk.Prelude.{
  ◌≡◌, refl, String, Bool, true, false, none, some, List, [], ◌∷◌, map, ok, err,
}
use axionvera_sdk.Prelude.Dict.{get, set}
use axionvera_sdk.Plugin.Types.{Manifest, Dependency, has_dependents}
use axionvera_sdk.Plugin.Registry.{
  Entries, register_manifest, unregister_manifest, get_dependents, wanted, resolve, resolve_all,
  resolve_dependencies, search_entries,
}
use axionvera_sdk.Plugin.Resolution.{IsComplete, resolve_dependencies-IsComplete}

abbrev needs : String → Bool → Dependency
needs id optional = record { plugin_id = id; min_version = none; optional = optional }

abbrev manifest : String → List Dependency → Manifest
manifest id ds = record {
  id = id;
  name = id;
  version = "1.0.0";
  description = none;
  compatibility = none;
  dependencies = some ds;
  keywords = some ("cycle" ∷ []);
}

-- `left` and `right` need each other, and `right` can do with `extra`, which the registry lacks, and needs `gone`.
abbrev left_manifest : Manifest
left_manifest = manifest "left" (needs "right" false ∷ [])

abbrev right_manifest : Manifest
right_manifest =
    manifest "right" (needs "extra" true ∷ needs "gone" false ∷ needs "left" false ∷ [])

abbrev cycle : Entries
cycle =
    ("left", record { manifest = left_manifest; source = "npm"; loaded = false })
    ∷ ("right", record { manifest = right_manifest; source = "local"; loaded = false })
    ∷ []

registered :
    register_manifest right_manifest "local"
      (("left", record { manifest = left_manifest; source = "npm"; loaded = false }) ∷ [])
    ≡ ok cycle
unfolding register_manifest get set
registered = refl

resolved : resolve_dependencies "left" cycle ≡ some (right_manifest ∷ left_manifest ∷ [])
unfolding resolve_dependencies resolve resolve_all wanted get
resolved = refl

kept : unregister_manifest "left" cycle ≡ err (has_dependents "left" ("right" ∷ []))
unfolding unregister_manifest get_dependents get
kept = refl

found : map (λ e. e.manifest.id) (search_entries (λ cs. cs) "gh" cycle) ≡ "right" ∷ []
unfolding search_entries
found = refl

resolve_dependencies-IsComplete_example :
    (ms : List Manifest) × (resolve_dependencies "left" cycle ≡ some ms)
    × IsComplete cycle "left" ms
resolve_dependencies-IsComplete_example = resolve_dependencies-IsComplete cycle "left"
