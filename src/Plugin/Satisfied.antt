-- ===== src/Plugin/Satisfied.antt =====
-- What `install` of src/plugin/pluginManager.ts requires of the dependencies.
use Prim.Native.Nat.{Ordering}
use axionvera_sdk.Prelude.{
  [], ℕ, ◌≡◌, ◌≢◌, refl, sym, ap, ◌∙◌, subst, inl, inr, ◌⊎◌, String, true, false, Option, none,
  some, List, In, Bool-cases, same_iff, ok, or_else, str_eq, eq_iff, arith,
}
use axionvera_sdk.Prelude.Dict.{get, values}
use axionvera_sdk.Plugin.Types.{State, State-discrete, Instance, Dependency, installed, active}
use axionvera_sdk.Plugin.Lifecycle.{is}
use axionvera_sdk.Plugin.Validation.{given}
use axionvera_sdk.Plugin.SemVer.{
  SemVer, codes, parse_sem_ver, compare_sem_ver, is_at_least, satisfies_min_version,
}
use axionvera_sdk.Plugin.Precedence.{IsLower, compare_sem_ver_lower}
use axionvera_sdk.Plugin.Runs.{Manager}
use axionvera_sdk.Plugin.Manager.{is_ready, install}
use axionvera_sdk.Plugin.Settled.{IsMet}
use axionvera_sdk.Plugin.Required.{install-requires}

is_ready_cases : (s : State) → is_ready s ≡ true → (s ≡ installed) ⊎ (s ≡ active)
is_ready_cases s h = elim (Bool-cases (is s installed)) [
  | inl e ↦ inl ((same_iff State-discrete s installed).0 e)
  | inr e ↦ inr ((same_iff State-discrete s active).0 (ground (arith, h, e)))
]

module _ (collate : List ℕ → List ℕ → Ordering) where
  -- Both texts are versions, and the first one is not lower.
  abbrev pub IsRecent : String → String → Type 0
  IsRecent text min =
      (a : SemVer) × (b : SemVer) × (parse_sem_ver (codes text) ≡ some a)
      × (parse_sem_ver (codes min) ≡ some b)
      × (¬ IsLower collate a b)

  -- A plugin of the id that the dependency names is Installed or Active, with a version that is recent enough, where
  -- the dependency asks for one.
  pub record IsSatisfied (m : Manager) (d : Dependency) : Type 0 where
    pub plugin : Instance
    pub present : In plugin (values m.plugins)
    pub same_id : plugin.config.manifest.id ≡ d.plugin_id
    pub ready : (plugin.state ≡ installed) ⊎ (plugin.state ≡ active)
    pub recent :
        (min : String)
        → d.min_version ≡ some min
        → min ≢ ""
        → IsRecent plugin.config.manifest.version min

  not_lt : (o : Ordering) → (elim o [ Ordering.lt ↦ false | _ ↦ true ]) ≡ true → o ≢ Ordering.lt
  not_lt Ordering.lt h k = cc
  not_lt Ordering.eq h k = cc
  not_lt Ordering.gt h k = cc

  is_at_least-parsed :
      (o p : Option SemVer)
      → is_at_least collate o p ≡ true
      → (a : SemVer) × (b : SemVer) × (o ≡ some a) × (p ≡ some b) × (¬ IsLower collate a b)
  is_at_least-parsed none p h = absurd cc
  is_at_least-parsed (some a) none h = absurd cc
  is_at_least-parsed (some a) (some b) h = (
    a,
    b,
    refl,
    refl,
    λ lower. not_lt (compare_sem_ver collate a b) h (compare_sem_ver_lower collate a b lower),
  )

  satisfies-IsRecent :
      (text min : String) → satisfies_min_version collate text min ≡ true → IsRecent text min
  unfolding satisfies_min_version
  satisfies-IsRecent text min h =
      is_at_least-parsed (parse_sem_ver (codes text)) (parse_sem_ver (codes min)) h

  given-some : (min : String) → min ≢ "" → given (some min) ≡ some min
  given-some min h = elim (Bool-cases (str_eq min "")) [
    | inl e ↦ absurd (h ((eq_iff min "").0 e))
    | inr e ↦ rw e refl
  ]

  IsMet-IsSatisfied : (m : Manager) (d : Dependency) → IsMet collate m d → IsSatisfied m d
  IsMet-IsSatisfied m d h = record {
    plugin = h.plugin;
    present = h.present;
    same_id = h.same_id;
    ready = is_ready_cases h.plugin.state h.ready;
    recent = λ min asked full.
        satisfies-IsRecent h.plugin.config.manifest.version min
          (h.recent min (ap given asked ∙ given-some min full));
  }

  -- Where install returns for a plugin that was neither Installed nor Active, each dependency of it that is not
  -- optional was met at the start: a plugin of that id was Installed or Active, and if a minimum is asked for, both
  -- it and the version of that plugin can be read, and the version is not lower.
  pub install-IsSatisfied :
      (f : ℕ) (id : String) (m : Manager) (p : Instance) (ds : List Dependency) (d : Dependency)
      → get id m.plugins ≡ some p
      → p.state ≢ installed
      → p.state ≢ active
      → (install collate f id m).1 ≡ ok tt
      → p.config.manifest.dependencies ≡ some ds
      → In d ds
      → d.optional ≡ false
      → IsSatisfied m d
  install-IsSatisfied f id m p ds d there not_installed not_active done named among required =
      let idle : is_ready p.state ≡ false = elim (Bool-cases (is_ready p.state)) [
        | inr e ↦ e
        | inl e ↦ elim (is_ready_cases p.state e) [
          | inl k ↦ absurd (not_installed k)
          | inr k ↦ absurd (not_active k)
        ]
      ] in
      IsMet-IsSatisfied m d (
        install-requires collate f id m p there idle done d
          (subst (λ o. In d (or_else o [])) (sym named) among) required)
