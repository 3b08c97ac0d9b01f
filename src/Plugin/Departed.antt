-- ===== src/Plugin/Departed.antt =====
-- `unregister` of src/plugin/pluginManager.ts: what it removes, and what may not depend on it.
use axionvera_sdk.Prelude.{
  some, any, str_eq, eq_iff, or_else, arith, ◌≡◌, refl, sym, ap, ◌∙◌, subst, inl, inr, String, true,
  false, none, List, [], ◌∷◌, In, In-keep_iff, ok, err, Bool-cases, Option-cases, err-ne-ok,
  is_empty, is_empty-nil, map, same_iff, eq_refl,
}
use axionvera_sdk.Prelude.Dict.{get, get-delete, values}
use axionvera_sdk.Plugin.Types.{State-discrete, uninstalled, Dependency, Instance, has_dependents}
use axionvera_sdk.Plugin.Validation.{dependencies_of}
use axionvera_sdk.Plugin.Lifecycle.{is, is_valid_transition}
use axionvera_sdk.Plugin.Runs.{Manager, Run, id_of, seq, when, move, current}
use axionvera_sdk.Plugin.Manager.{
  is_ready, uninstall, depends_on, get_dependents_of, is_left, installed_dependents, remove,
  unregister,
}
use axionvera_sdk.Plugin.Keyed.{IsKeyed, get-In}
use axionvera_sdk.Plugin.Settled.{seq-ok}
use axionvera_sdk.Plugin.Required.{with_plugin_there, with_plugin_gone}

pub In-map : {A B : Type 0} (f : A → B) (a : A) (xs : List A) → In a xs → In (f a) (map f xs)
In-map f a [] h = absurd h
In-map f a (x ∷ xs) (inl e) = inl (ap f e)
In-map f a (x ∷ xs) (inr h) = inr (In-map f a xs h)

-- What depends on the id and is not uninstalled stands in the list that unregister looks at.
installed_dependents-In :
    (m : Manager) (id : String) (q : Instance)
    → IsKeyed m
    → In q (values m.plugins)
    → depends_on id q.config ≡ true
    → is q.state uninstalled ≡ false
    → In (id_of q) (installed_dependents m id)
unfolding installed_dependents
installed_dependents-In m id q k there depends left_in =
    let found = get-In m.plugins q k.named k.distinct there in
    let among =
      In-map id_of q _
        ((In-keep_iff (λ p. depends_on id p.config) q (values m.plugins)).1 (there, depends)) in
    (In-keep_iff (λ i. is_left (get i m.plugins)) (id_of q) (get_dependents_of m id)).1
      (among, rw found (rw left_in refl))

goes : String → Instance → Run
goes id p = seq (when (is_ready p.state) (uninstall id)) (
    seq (λ t. when (is_valid_transition (current p t).state uninstalled) (move p uninstalled) t)
      (remove id))

goes-removes :
    (id : String) (p : Instance) (m : Manager)
    → (goes id p m).1 ≡ ok tt
    → get id (goes id p m).0.plugins ≡ none
unfolding goes
goes-removes id p m h =
    let (first, step) = seq-ok (when (is_ready p.state) (uninstall id)) _ m h in
    let (second, last) = seq-ok _ (remove id) _ (sym (ap (λ r. r.1) step) ∙ h) in
    ap (λ r. get id r.0.plugins) (step ∙ last) ∙ get-delete id id _ ∙ rw (eq_refl id) refl

depends_on-names :
    (id : String) (ds : List Dependency) (d : Dependency)
    → In d ds
    → d.plugin_id ≡ id
    → any (λ x. str_eq x.plugin_id id) ds ≡ true
depends_on-names id [] d there named = absurd there
depends_on-names id (x ∷ xs) d (inl here) named =
    ground (arith, eq_iff x.plugin_id id, ap (λ q. q.plugin_id) here)
depends_on-names id (x ∷ xs) d (inr there) named =
    ground (arith, depends_on-names id xs d there named)

-- Where unregister returns, the manager no longer has the id, and every plugin of it that has a dependency of that
-- id, required or optional, was uninstalled before.
pub unregister-leaves :
    (id : String) (m : Manager)
    → IsKeyed m
    → (unregister id m).1 ≡ ok tt
    → (get id (unregister id m).0.plugins ≡ none)
      × ((q : Instance) (ds : List Dependency) (d : Dependency)
          → In q (values m.plugins)
          → q.config.manifest.dependencies ≡ some ds
          → In d ds
          → d.plugin_id ≡ id
          → q.state ≡ uninstalled)
unfolding unregister goes
unregister-leaves id m k done = elim (Option-cases (get id m.plugins)) [
  | inl gone ↦ absurd (err-ne-ok _ _ tt (ap (λ r. r.1) (with_plugin_gone id _ m gone)) done)
  | inr (p, there) ↦ elim (Bool-cases (is_empty (installed_dependents m id))) [
    | inr held ↦
        let step : (unregister id m).1 ≡ err (has_dependents id (installed_dependents m id)) =
          ap (λ r. r.1) (with_plugin_there id _ m p there) ∙ rw held refl in
        absurd (err-ne-ok _ _ tt step done)
    | inl free ↦
        let step : unregister id m ≡ goes id p m =
          with_plugin_there id _ m p there ∙ rw free refl in
        (
          ap (λ r. get id r.0.plugins) step ∙ goes-removes id p m (sym (ap (λ r. r.1) step) ∙ done),
          λ q ds d among lists there named. elim (Bool-cases (is q.state uninstalled)) [
            | inl down ↦ (same_iff State-discrete q.state uninstalled).0 down
            | inr up ↦ absurd (
                subst (In (id_of q)) (is_empty-nil _ free) (
                  installed_dependents-In m id q k among
                    (depends_on-names id (dependencies_of q.config) d
                      (subst (λ o. In d (or_else o [])) (sym lists) there) named)
                    up))
          ],
        )
  ]
]
