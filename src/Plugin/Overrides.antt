-- ===== src/Plugin/Overrides.antt =====
-- The services that the active plugins give together (getServiceOverrides of src/plugin/pluginManager.ts).
use axionvera_sdk.Prelude.{
  ℕ, ◌≡◌, refl, sym, ap, ◌∙◌, inl, inr, String, Option, none, some, List, [], ◌∷◌, All, Bool-cases,
  str_eq, eq_iff,
}
use axionvera_sdk.Prelude.Dict.{Dict, get, set, get-set, IsDistinct}
use axionvera_sdk.Plugin.Types.{Instance}
use axionvera_sdk.Plugin.Runs.{Manager}
use axionvera_sdk.Plugin.Clients.{
  assign, services_of, add_services, get_active, get_service_overrides,
}

abbrev pub otherwise : Option ℕ → Option ℕ → Option ℕ
otherwise none second = second
otherwise (some v) second = some v

-- The last of some plugins that gives a service, and what it gives.
abbrev pub last_given : String → List Instance → Option ℕ
last_given k [] = none
last_given k (p ∷ ps) = otherwise (last_given k ps) (get k (services_of p))

otherwise_assoc : (a b c : Option ℕ) → otherwise a (otherwise b c) ≡ otherwise (otherwise a b) c
otherwise_assoc none b c = refl
otherwise_assoc (some v) b c = refl

otherwise-none : (a : Option ℕ) → otherwise a none ≡ a
otherwise-none none = refl
otherwise-none (some v) = refl

otherwise-set :
    (j k : String) (v : ℕ) (more m : Dict ℕ)
    → get j more ≡ none
    → otherwise (get k more) (get k (set j v m)) ≡ otherwise (get k ((j, v) ∷ more)) (get k m)
unfolding get
otherwise-set j k v more m new = elim (Bool-cases (str_eq j k)) [
  | inl e ↦
      let none_there : get k more ≡ none = sym (ap (λ i. get i more) ((eq_iff j k).0 e)) ∙ new in
      rw (none_there, e) (get-set j k v m ∙ rw e refl)
  | inr e ↦ rw e (ap (otherwise (get k more)) (get-set j k v m ∙ rw e refl))
]

get-assign :
    (k : String) (m services : Dict ℕ)
    → IsDistinct services
    → get k (assign m services) ≡ otherwise (get k services) (get k m)
unfolding assign get
get-assign k m [] d = refl
get-assign k m ((j, v) ∷ more) (new, d) =
    get-assign k (set j v m) more d ∙ otherwise-set j k v more m new

get-add_services :
    (k : String) (m : Dict ℕ) (ps : List Instance)
    → All (λ p. IsDistinct (services_of p)) ps
    → get k (add_services m ps) ≡ otherwise (last_given k ps) (get k m)
unfolding add_services
get-add_services k m [] d = refl
get-add_services k m (p ∷ ps) (d, ds) =
    get-add_services k (assign m (services_of p)) ps ds
    ∙ ap (otherwise (last_given k ps)) (get-assign k m (services_of p) d)
    ∙ otherwise_assoc (last_given k ps) (get k (services_of p)) (get k m)

-- Each service that the overrides hold is the one that the last active plugin that gives it gives, in the order
-- of the map, and the overrides hold no other; the services of each plugin have distinct names.
pub get_service_overrides-last :
    (m : Manager) (k : String)
    → All (λ p. IsDistinct (services_of p)) (get_active m)
    → get k (get_service_overrides m) ≡ last_given k (get_active m)
unfolding get_service_overrides get
get_service_overrides-last m k d =
    get-add_services k [] (get_active m) d ∙ otherwise-none (last_given k (get_active m))
