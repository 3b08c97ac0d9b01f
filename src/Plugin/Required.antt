-- ===== src/Plugin/Required.antt =====
-- `install` of src/plugin/pluginManager.ts: what it requires, and that its loop over the dependencies has nothing
-- to install.
use Prim.Native.Nat.{Ordering}
use axionvera_sdk.Prelude.{
  ℕ, zero, suc, ◌≡◌, refl, sym, ap, ◌∙◌, subst, inl, inr, String, Bool, true, false, not, Option,
  none, some, List, [], ◌∷◌, In, ok, err, arith, Bool-cases, Option-cases, Outcome-cases, err-ne-ok,
}
use axionvera_sdk.Prelude.Dict.{get}
use axionvera_sdk.Plugin.Types.{Instance, Dependency, installed, not_found}
use axionvera_sdk.Plugin.Validation.{dependencies_of}
use axionvera_sdk.Plugin.Runs.{Manager, Run, id_of, seq, when, move, guarded}
use axionvera_sdk.Plugin.Manager.{
  with_plugin, is_ready, check_dependencies, is_waited_for, install_dependencies, install_one,
  install, enable,
}
use axionvera_sdk.Plugin.Keyed.{IsKeyed, get-In}
use axionvera_sdk.Plugin.Settled.{seq-ok, IsMet, check_dependencies-ok}

pub with_plugin_there :
    (id : String) (body : Instance → Run) (m : Manager) (p : Instance)
    → get id m.plugins ≡ some p
    → with_plugin id body m ≡ body p m
unfolding with_plugin
with_plugin_there id body m p h = rw (h, with_plugin) refl

pub with_plugin_gone :
    (id : String) (body : Instance → Run) (m : Manager)
    → get id m.plugins ≡ none
    → with_plugin id body m ≡ (m, err (not_found id))
unfolding with_plugin
with_plugin_gone id body m h = rw (h, with_plugin) refl

pub when-true : (b : Bool) (p : Run) (m : Manager) → b ≡ true → when b p m ≡ p m
unfolding when
when-true b p m h = rw (h, when) refl

pub when-false : (b : Bool) (p : Run) (m : Manager) → b ≡ false → when b p m ≡ (m, ok tt)
unfolding when
when-false b p m h = rw (h, when) refl

-- What follows a run that returned, and that a run that threw ends the rest.
pub seq_ok : (p q : Run) (m t : Manager) → p m ≡ (t, ok tt) → seq p q m ≡ q t
unfolding seq
seq_ok p q m t h = rw (ap (λ r. r.1) h, seq) (ap q (ap (λ r. r.0) h))

seq_cong :
    (p q r : Run) (m : Manager) → ((p m).1 ≡ ok tt → q (p m).0 ≡ r (p m).0) → seq p q m ≡ seq p r m
unfolding seq
seq_cong p q r m h = elim (Outcome-cases (p m).1) [
  | inl (e, failed) ↦ rw (failed, seq) refl
  | inr (u, done) ↦ rw (done, seq) (h done)
]

when_cong : (b : Bool) (p q : Run) (m : Manager) → p m ≡ q m → when b p m ≡ when b q m
unfolding when
when_cong true p q m h = h
when_cong false p q m h = refl

module _ (collate : List ℕ → List ℕ → Ordering) where
  is_waited_for-met :
      (m : Manager) (d : Dependency)
      → IsKeyed m
      → (d.optional ≡ false → IsMet collate m d)
      → is_waited_for (get d.plugin_id m.plugins) d ≡ false
  is_waited_for-met m d k met = elim (Bool-cases d.optional) [
    | inl optional ↦ optional_free (get d.plugin_id m.plugins) optional
    | inr needed ↦
        let q = met needed in
        let there = get-In m.plugins q.plugin k.named k.distinct q.present in
        subst (λ o. is_waited_for o d ≡ false)
          (sym (sym (ap (λ i. get i m.plugins) q.same_id) ∙ there)) (rw q.ready (ground arith))
  ]
    where
      optional_free : (o : Option Instance) → d.optional ≡ true → is_waited_for o d ≡ false
      optional_free none h = refl
      optional_free (some q) h = rw h refl

  -- With every required dependency met, the loop passes over all of them.
  install_dependencies-none :
      (go : String → Run) (ds : List Dependency) (m : Manager)
      → IsKeyed m
      → ((d : Dependency) → In d ds → d.optional ≡ false → IsMet collate m d)
      → install_dependencies collate go ds m ≡ (m, ok tt)
  unfolding install_dependencies
  install_dependencies-none go [] m k met = refl
  install_dependencies-none go (d ∷ ds) m k met =
      seq_ok _ (install_dependencies collate go ds) m m
        (when-false _ (go d.plugin_id) m (is_waited_for-met m d k (met d (inl refl))))
      ∙ install_dependencies-none go ds m k (λ e there. met e (inr there))

  -- `install` after its checks.
  install_rest : Instance → Run
  install_rest p =
      seq (move p installed)
        (seq (guarded (λ h. h.on_install) p) (λ m. when m.auto_enable (enable (id_of p)) m))

  install_one-alone :
      (go : String → Run) (p : Instance) (m : Manager)
      → IsKeyed m
      → install_one collate go p m ≡ seq (check_dependencies collate p) (install_rest p) m
  unfolding install_one install_rest
  install_one-alone go p m k = seq_cong (check_dependencies collate p) _ _ m (λ done.
      let (same, met) = check_dependencies-ok collate p m done in
      subst
        (λ t.
          seq (install_dependencies collate go (dependencies_of p.config)) (install_rest p) t
          ≡ install_rest p t)
        (sym (ap (λ r. r.0) same))
        (seq_ok _ (install_rest p) m m
          (install_dependencies-none go (dependencies_of p.config) m k met)))

  install_there :
      (f : ℕ) (id : String) (m : Manager) (p : Instance)
      → get id m.plugins ≡ some p
      → install collate (suc f) id m
        ≡ when (not (is_ready p.state)) (install_one collate (install collate f) p) m
  unfolding install
  install_there f id m p h = with_plugin_there id _ m p h

  install_gone :
      (f : ℕ) (id : String) (m : Manager)
      → get id m.plugins ≡ none
      → install collate (suc f) id m ≡ (m, err (not_found id))
  unfolding install
  install_gone f id m h = with_plugin_gone id _ m h

  -- In a manager whose map is well formed, install gives the same with any fuel but none: the loop that is to
  -- install the dependencies first never calls install, as a required dependency that is not installed was
  -- refused before.
  pub install_fuel :
      (f g : ℕ) (id : String) (m : Manager)
      → IsKeyed m
      → install collate (suc f) id m ≡ install collate (suc g) id m
  install_fuel f g id m k = elim (Option-cases (get id m.plugins)) [
    | inl gone ↦ install_gone f id m gone ∙ sym (install_gone g id m gone)
    | inr (p, there) ↦
        install_there f id m p there
        ∙ when_cong (not (is_ready p.state)) _ _ m (
            install_one-alone (install collate f) p m k
            ∙ sym (install_one-alone (install collate g) p m k))
        ∙ sym (install_there g id m p there)
  ]

  first_ok :
      (f : ℕ) (p : Instance) (m : Manager)
      → (install_one collate (install collate f) p m).1 ≡ ok tt
      → (check_dependencies collate p m).1 ≡ ok tt
  unfolding install_one
  first_ok f p m h = (seq-ok (check_dependencies collate p) _ m h).0

  -- Where install returns for a plugin that was not installed, each of its required dependencies was met at the
  -- start: a plugin of that id stood in the map, Installed or Active, with at least the version asked for.
  pub install-requires :
      (f : ℕ) (id : String) (m : Manager) (p : Instance)
      → get id m.plugins ≡ some p
      → is_ready p.state ≡ false
      → (install collate f id m).1 ≡ ok tt
      → (d : Dependency) → In d (dependencies_of p.config)
      → d.optional ≡ false
      → IsMet collate m d
  unfolding install
  install-requires zero id m p there idle done = absurd (err-ne-ok _ _ tt refl done)
  install-requires (suc f) id m p there idle done =
      let step =
        install_there f id m p there
        ∙ when-true (not (is_ready p.state)) (install_one collate (install collate f) p) m
            (rw idle refl) in
      let run_done : (install_one collate (install collate f) p m).1 ≡ ok tt =
        sym (ap (λ r. r.1) step) ∙ done in
      (check_dependencies-ok collate p m (first_ok f p m run_done)).1
