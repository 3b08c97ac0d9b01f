-- ===== src/Plugin/Settled.antt =====
-- The check of the dependencies that `install` of src/plugin/pluginManager.ts makes.
use Prim.Native.Nat.{Ordering}
use mathlib.Core.Option.{none-ne-some}
use axionvera_sdk.Prelude.{
  err-ne-ok, cons-ne-nil, append_eq_nil, is_empty-nil, ℕ, ◌≡◌, refl, sym, ap, ◌∙◌, subst, ◌⊎◌, inl,
  inr, String, Bool, true, false, not, some, List, [], ◌∷◌, ◌++◌, In, ok, err, Bool-cases,
  Option-cases, Outcome-cases, is_empty,
}
use axionvera_sdk.Prelude.Dict.{Dict, get, set, values, get-set_cases}
use axionvera_sdk.Plugin.Types.{
  Instance, Dependency, Issue, not_installed, too_old, unmet_dependencies,
}
use axionvera_sdk.Plugin.SemVer.{satisfies_min_version}
use axionvera_sdk.Plugin.Validation.{
  given, report, result_of, unmet, unmet_among, validate_dependencies, dependencies_of,
}
use axionvera_sdk.Plugin.Runs.{Manager, Run, id_of, seq}
use axionvera_sdk.Plugin.Manager.{is_ready, add_ready, installed_map, check_dependencies}

-- A run that returned ran both its parts.
pub seq-ok :
    (p q : Run) (m : Manager) → (seq p q m).1 ≡ ok tt → ((p m).1 ≡ ok tt) × (seq p q m ≡ q (p m).0)
unfolding seq
seq-ok p q m h = elim (Outcome-cases (p m).1) [
  | inl (e, failed) ↦
      let step : (seq p q m).1 ≡ err e = rw (failed, seq) refl in absurd (err-ne-ok _ e tt step h)
  | inr (u, done) ↦ (done, rw (done, seq) refl)
]

-- An installed plugin of an id that satisfies the dependency.
pub record IsMet (collate : List ℕ → List ℕ → Ordering) (m : Manager) (d : Dependency)
    : Type 0 where
  pub plugin : Instance
  pub present : In plugin (values m.plugins)
  pub same_id : id_of plugin ≡ d.plugin_id
  pub ready : is_ready plugin.state ≡ true
  pub recent :
      (min : String)
      → given d.min_version ≡ some min
      → satisfies_min_version collate plugin.config.manifest.version min ≡ true

step_ready :
    (p : Instance) (ps : List Instance) (m : Dict Instance)
    → is_ready p.state ≡ true
    → add_ready (p ∷ ps) m ≡ add_ready ps (set (id_of p) p m)
unfolding add_ready
step_ready p ps m h = rw (h, add_ready) refl

step_other :
    (p : Instance) (ps : List Instance) (m : Dict Instance)
    → is_ready p.state ≡ false
    → add_ready (p ∷ ps) m ≡ add_ready ps m
unfolding add_ready
step_other p ps m h = rw (h, add_ready) refl

add_ready-get :
    (ps : List Instance) (m : Dict Instance) (id : String) (q : Instance)
    → get id (add_ready ps m) ≡ some q
    → (In q ps × (id_of q ≡ id) × (is_ready q.state ≡ true)) ⊎ (get id m ≡ some q)
unfolding add_ready
add_ready-get [] m id q h = inr h
add_ready-get (p ∷ ps) m id q h = elim (Bool-cases (is_ready p.state)) [
  | inl ready ↦
      elim (add_ready-get ps (set (id_of p) p m) id q
        (sym (ap (get id) (step_ready p ps m ready)) ∙ h)) [
          | inl (there, same, is_so) ↦ inl (inr there, same, is_so)
          | inr before ↦ elim (get-set_cases (id_of p) id p q m before) [
            | inl (same, here) ↦ inl (
              inl (sym here),
              subst (λ x. id_of x ≡ id) here same,
              subst (λ x. is_ready x.state ≡ true) here ready,
            )
            | inr older ↦ inr older
          ]
        ]
  | inr other ↦ elim (add_ready-get ps m id q (sym (ap (get id) (step_other p ps m other)) ∙ h)) [
    | inl (there, same, is_so) ↦ inl (inr there, same, is_so)
    | inr before ↦ inr before
  ]
]

true-ne-false : ¬ (true ≡ false)
true-ne-false h = cc

module _ (collate : List ℕ → List ℕ → Ordering) where
  report_nothing : (test : Bool) (issue : Issue) → report test issue ≡ [] → test ≡ false
  report_nothing true issue h = absurd (cons-ne-nil issue [] h)
  report_nothing false issue h = refl

  not-eq-false : (b : Bool) → not b ≡ false → b ≡ true
  not-eq-false true h = refl
  not-eq-false false h = cc

  unmet-IsMet :
      (m : Manager) (d : Dependency)
      → unmet collate d (get d.plugin_id (installed_map m)) ≡ []
      → IsMet collate m d
  unfolding unmet get
  unmet-IsMet m d h = elim (Option-cases (get d.plugin_id (installed_map m))) [
    | inl missing ↦
        let step : unmet collate d (get d.plugin_id (installed_map m))
            ≡ not_installed d.plugin_id ∷ [] =
          rw missing refl in
        absurd (cons-ne-nil _ _ (sym step ∙ h))
    | inr (q, there) ↦ elim (add_ready-get (values m.plugins) [] d.plugin_id q there) [
      | inr never ↦ absurd (none-ne-some q never)
      | inl (present, same, ready) ↦ record {
        plugin = q;
        present = present;
        same_id = same;
        ready = ready;
        recent = λ min is_given.
            (let sat = satisfies_min_version collate q.config.manifest.version min in
              let step : unmet collate d (get d.plugin_id (installed_map m))
                  ≡ report (not sat) (too_old d.plugin_id q.config.manifest.version min) =
                rw (there, unmet) (rw is_given refl) in
              not-eq-false sat (report_nothing (not sat) _ (sym step ∙ h)));
      }
    ]
  ]

  unmet_among_optional :
      (e : Dependency) (es : List Dependency) (ready : Dict Instance)
      → e.optional ≡ true
      → unmet_among collate false (e ∷ es) ready ≡ unmet_among collate false es ready
  unfolding unmet_among
  unmet_among_optional e es ready h = rw (h, unmet_among) refl

  unmet_among_needed :
      (e : Dependency) (es : List Dependency) (ready : Dict Instance)
      → e.optional ≡ false
      → unmet_among collate false (e ∷ es) ready
        ≡ unmet collate e (get e.plugin_id ready) ++ unmet_among collate false es ready
  unfolding unmet_among
  unmet_among_needed e es ready h = rw (h, unmet_among) refl

  unmet_among-none :
      (ds : List Dependency) (ready : Dict Instance)
      → unmet_among collate false ds ready ≡ []
      → (d : Dependency) → In d ds
      → d.optional ≡ false
      → unmet collate d (get d.plugin_id ready) ≡ []
  unmet_among-none [] ready h d m required = absurd m
  unmet_among-none (e ∷ es) ready h d m required = elim (Bool-cases e.optional) [
    | inl optional ↦ elim m [
      | inl here ↦
          absurd (true-ne-false (sym optional ∙ sym (ap (λ x. x.optional) here) ∙ required))
      | inr there ↦
          unmet_among-none es ready (sym (unmet_among_optional e es ready optional) ∙ h) d there
            required
    ]
    | inr needed ↦
        let (first, rest) =
          append_eq_nil (unmet collate e (get e.plugin_id ready)) _
            (sym (unmet_among_needed e es ready needed) ∙ h) in
        elim m [
          | inl here ↦ subst (λ x. unmet collate x (get x.plugin_id ready) ≡ []) (sym here) first
          | inr there ↦ unmet_among-none es ready rest d there required
        ]
  ]

  valid_errors :
      (ds : List Dependency) (ready : Dict Instance)
      → (validate_dependencies collate ds ready).valid ≡ true
      → is_empty (unmet_among collate false ds ready) ≡ true
  unfolding validate_dependencies result_of
  valid_errors ds ready h = h

  -- Where the check passes, it changes nothing, and every required dependency is met.
  pub check_dependencies-ok :
      (p : Instance) (m : Manager)
      → (check_dependencies collate p m).1 ≡ ok tt
      → (check_dependencies collate p m ≡ (m, ok tt))
        × ((d : Dependency)
            → In d (dependencies_of p.config)
            → d.optional ≡ false
            → IsMet collate m d)
  unfolding check_dependencies
  check_dependencies-ok p m h =
      let v = validate_dependencies collate (dependencies_of p.config) (installed_map m) in
      elim (Bool-cases v.valid) [
        | inl valid ↦ (
          rw (valid, check_dependencies) refl,
          λ d there required. unmet-IsMet m d (
              unmet_among-none (dependencies_of p.config) (installed_map m)
                (is_empty-nil _ (valid_errors (dependencies_of p.config) (installed_map m) valid)) d
                there required),
        )
        | inr bad ↦
            let step : (check_dependencies collate p m).1
                ≡ err (unmet_dependencies (id_of p) v.errors) =
              rw (bad, check_dependencies) refl in
            absurd (err-ne-ok _ _ tt step h)
      ]
