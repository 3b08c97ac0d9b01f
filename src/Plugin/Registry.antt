-- ===== src/Plugin/Registry.antt =====
-- src/plugin/registry.ts: PluginRegistry, the manifests by id. `resolveDependencies` takes fuel, one unit for each
-- level of its recursion; `toLowerCase` is the parameter `lower`, on the codes of a text.
use axionvera_sdk.Prelude.{
  ℕ, suc, zero, String, Bool, true, false, not, ◌||◌, ◌&&◌, Option, none, some, List, [], ◌∷◌, ◌++◌,
  map, keep, any, length, Outcome, ok, err, if◌then◌else◌, is_empty, or_else, str_eq, ◌==◌,
}
use axionvera_sdk.Prelude.Dict.{Dict, get, set, delete, has, values}
use axionvera_sdk.Plugin.Types.{
  Manifest, Dependency, RegistryEntry, Error, already_registered, not_found, has_dependents,
}
use axionvera_sdk.Plugin.SemVer.{codes}
use axionvera_sdk.Plugin.Cycles.{is_member}

abbrev pub Entries : Type 0
Entries = Dict RegistryEntry

unfoldable pub register_manifest : Manifest → String → Entries → Outcome Error Entries
register_manifest m source entries =
    if has m.id entries
    then err (already_registered m.id)
    else ok (set m.id (record { manifest = m; source = source; loaded = false }) entries)

abbrev pub required_by : Manifest → List Dependency
required_by m = or_else m.dependencies []

unfoldable pub get_dependents : String → Entries → List String
get_dependents id entries =
    map (λ e. e.manifest.id)
      (keep (λ e. any (λ d. str_eq d.plugin_id id) (required_by e.manifest)) (values entries))

unfoldable pub unregister_manifest : String → Entries → Outcome Error Entries
unregister_manifest id entries =
    if has id entries
    then (if is_empty (get_dependents id entries)
        then ok (delete id entries)
        else err (has_dependents id (get_dependents id entries)))
    else err (not_found id)

abbrev pub get_entry : String → Entries → Option RegistryEntry
get_entry = get

abbrev pub has_entry : String → Entries → Bool
has_entry = has

abbrev pub all_entries : Entries → List RegistryEntry
all_entries = values

unfoldable pub mark_loaded : String → Entries → Outcome Error Entries
mark_loaded id entries = elim (get id entries) [
  | none ↦ err (not_found id)
  | some e ↦ ok (set id (record e { loaded = true }) entries)
]

unfoldable pub mark_unloaded : String → Entries → Entries
mark_unloaded id entries = elim (get id entries) [
  | none ↦ entries
  | some e ↦ set id (record e { loaded = false }) entries
]

pub record Resolving : Type 0 where
  pub seen : List String
  pub resolved : List Manifest

-- The dependencies that are gone into: the required ones, and the optional ones that have an entry.
unfoldable pub wanted : Entries → List Dependency → List String
wanted entries ds =
    map (λ d. d.plugin_id) (keep (λ d. not d.optional || has d.plugin_id entries) ds)

unfoldable pub resolve_all :
    (String → Resolving → Option Resolving) → List String → Resolving → Option Resolving
resolve_all go [] s = some s
resolve_all go (id ∷ ids) s = elim (go id s) [ none ↦ none | some t ↦ resolve_all go ids t ]

abbrev pub see : Resolving → String → Resolving
see s id = record s { seen = id ∷ s.seen }

-- `resolved.push(entry.manifest)`
abbrev pub push_after : Manifest → Option Resolving → Option Resolving
push_after m none = none
push_after m (some t) = some (record t { resolved = t.resolved ++ m ∷ [] })

unfoldable pub resolve : Entries → ℕ → String → Resolving → Option Resolving
resolve entries zero id s = none
resolve entries (suc f) id s = elim (is_member id s.seen) [
  | true ↦ some s
  | false ↦ elim (get id entries) [
    | none ↦ some (see s id)
    | some e ↦
        push_after e.manifest
          (resolve_all (resolve entries f) (wanted entries (required_by e.manifest)) (see s id))
  ]
]

-- The ids that stand in the entries.
abbrev pub mentioned_in : Entries → List String
mentioned_in [] = []
mentioned_in ((id, e) ∷ more) =
    id ∷ (map (λ d. d.plugin_id) (required_by e.manifest) ++ mentioned_in more)

abbrev pub manifests_of : Option Resolving → Option (List Manifest)
manifests_of none = none
manifests_of (some s) = some s.resolved

-- A level for each id that can be met, the first one included, and one more.
unfoldable pub resolve_dependencies : String → Entries → Option (List Manifest)
resolve_dependencies id entries = manifests_of (
    resolve entries (suc (suc (length (mentioned_in entries)))) id
      (record { seen = []; resolved = [] }))

-- `text.includes(part)`
abbrev pub starts_with : List ℕ → List ℕ → Bool
starts_with [] text = true
starts_with (c ∷ cs) [] = false
starts_with (c ∷ cs) (x ∷ xs) = (c == x) && starts_with cs xs

abbrev pub includes : List ℕ → List ℕ → Bool
includes [] part = is_empty part
includes (x ∷ xs) part = starts_with part (x ∷ xs) || includes xs part

module _ (lower : List ℕ → List ℕ) where
  abbrev pub matches : List ℕ → String → Bool
  matches query text = includes (lower (codes text)) query

  abbrev pub is_hit : List ℕ → Manifest → Bool
  is_hit query m =
      matches query m.name
      || (any (matches query) (elim m.description [ none ↦ [] | some d ↦ d ∷ [] ])
          || any (matches query) (or_else m.keywords []))

  unfoldable pub search_entries : String → Entries → List RegistryEntry
  search_entries query entries =
      keep (λ e. is_hit (lower (codes query)) e.manifest) (values entries)
