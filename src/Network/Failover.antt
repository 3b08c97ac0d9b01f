-- ===== src/Network/Failover.antt =====
-- How RpcEndpointManager.execute fails over (src/network/rpcEndpointManager.ts).
use mathlib.Core.Option.{some-injective}
use axionvera_sdk.Prelude.{
  ap, ◌∙◌, ◌↔◌, eq_iff, Bool-cases, List-cases, subst, ℕ, zero, suc, ◌+◌, ◌≤◌, ◌≡◌, refl, sym, ◌⊎◌,
  inl, inr, String, true, false, not, ◌&&◌, Option, none, some, List, [], ◌∷◌, ◌++◌, keep, length,
  str_eq, or_else, Outcome, ok, err, arith, All, In, In-keep_iff, Outcome-cases,
}
use axionvera_sdk.Network.Endpoints.{
  Policy, Entry, Manager, Health, Monitor, is_unhealthy, is_skipped, candidates, pick, World, Run,
  attempts_from, execute,
}
use axionvera_sdk.Network.Picks.{In-pick}

abbrev pub no_endpoints : String
no_endpoints = "No available endpoints"

-- An endpoint that may be tried where some were skipped: it is enabled, has no skipped id, and the monitor does not
-- have it as unhealthy.
pub record IsEligible (monitor : Monitor) (entries : List Entry) (skipped : List String) (e : Entry)
    : Type 0 where
  pub known : In e entries
  pub enabled : e.enabled ≡ true
  pub fresh : ¬ In e.id skipped
  pub healthy : (h : Health) → monitor e.id ≡ some h → h.unhealthy ≡ false

is_skipped_iff :
    (skipped : List String) (id : String) → (is_skipped skipped id ≡ true) ↔ In id skipped
is_skipped_iff [] id = ((λ h. cc), (λ h. absurd h))
is_skipped_iff (s ∷ skipped) id = ground (arith, is_skipped_iff skipped id, eq_iff s id)

is_skipped_not_iff :
    (skipped : List String) (id : String) → (is_skipped skipped id ≡ false) ↔ (¬ In id skipped)
is_skipped_not_iff skipped id = elim (Bool-cases (is_skipped skipped id)) [
  | inl e ↦
      let there = (is_skipped_iff skipped id).0 e in
      ((λ h. absurd (ground arith)), (λ h. absurd (h there)))
  | inr e ↦ ((λ h m. absurd (ground (arith, (is_skipped_iff skipped id).1 m))), (λ h. e))
]

flag_iff :
    (o : Option Health)
    → (elim o [ none ↦ false | some h ↦ h.unhealthy ] ≡ false)
      ↔ ((h : Health) → o ≡ some h → h.unhealthy ≡ false)
flag_iff none = ((λ e h k. cc), (λ f. refl))
flag_iff (some g) =
    ((λ e h k. sym (ap (λ q. q.unhealthy) (some-injective g h k)) ∙ e), (λ f. f g refl))

is_unhealthy_iff :
    (monitor : Monitor) (id : String)
    → (is_unhealthy monitor id ≡ false) ↔ ((h : Health) → monitor id ≡ some h → h.unhealthy ≡ false)
is_unhealthy_iff monitor id = flag_iff (monitor id)

In-candidates :
    (monitor : Monitor) (entries : List Entry) (skipped : List String) (e : Entry)
    → In e (candidates monitor entries skipped)
    → IsEligible monitor entries skipped e
unfolding candidates
In-candidates monitor entries skipped e i =
    let (j, healthy) =
      (In-keep_iff (λ x. not (is_unhealthy monitor x.id)) e
          (keep (λ x. x.enabled && not (is_skipped skipped x.id)) entries)).0
        i in
    let (known, on) =
      (In-keep_iff (λ x. x.enabled && not (is_skipped skipped x.id)) e entries).0 j in
    record {
      known = known;
      enabled = ground (arith, on);
      fresh = (is_skipped_not_iff skipped e.id).0 (ground (arith, on));
      healthy = (is_unhealthy_iff monitor e.id).0 (ground (arith, healthy));
    }

-- Where there is no candidate, no endpoint is eligible.
candidates-none :
    (monitor : Monitor) (entries : List Entry) (skipped : List String)
    → candidates monitor entries skipped ≡ []
    → (e : Entry) → ¬ IsEligible monitor entries skipped e
unfolding candidates
candidates-none monitor entries skipped h e may =
    let fresh = (is_skipped_not_iff skipped e.id).1 may.fresh in
    let healthy = (is_unhealthy_iff monitor e.id).1 may.healthy in
    subst (In e) h (
      (In-keep_iff (λ x. not (is_unhealthy monitor x.id)) e
          (keep (λ x. x.enabled && not (is_skipped skipped x.id)) entries)).1
        (
          (In-keep_iff (λ x. x.enabled && not (is_skipped skipped x.id)) e entries).1
              (may.known, rw (may.enabled, fresh) refl),
          rw healthy refl,
        ))

module _ {A : Type 0} (world : World A) (policy : Policy) (entries : List Entry) where
  -- What a run may do from attempt `i` on, with `k` left, whatever the policy is: it tries an eligible
  -- endpoint, and ends with what that returns, or goes on without it; it gives up with the last error
  -- where no attempt or no endpoint is left.
  abbrev pub Serves : ℕ → ℕ → List String → Option String → List Entry → Outcome String A → Type 0
  Serves k i skipped last [] o =
      (o ≡ err (or_else last no_endpoints))
      × ((k ≡ 0) ⊎ ((e : Entry) → ¬ IsEligible (world.monitor i) entries skipped e))
  Serves zero i skipped last (x ∷ xs) o = ⊥
  Serves (suc k) i skipped last (x ∷ xs) o =
      IsEligible (world.monitor i) entries skipped x
      × (((a : A) × (world.fn i x.url ≡ ok a) × (xs ≡ []) × (o ≡ ok a))
          ⊎ ((message : String) × (world.fn i x.url ≡ err message)
              × Serves k (i + 1) (skipped ++ x.id ∷ []) (some message) xs o))

  -- The runs of the code.
  abbrev runs : ℕ → ℕ → List String → Option String → ℕ → Run A
  runs = attempts_from world policy entries

  runs-empty :
      (k i : ℕ) (skipped : List String) (last : Option String) (rr : ℕ)
      → candidates (world.monitor i) entries skipped ≡ []
      → runs (suc k) i skipped last rr
        ≡ record { outcome = err (or_else last no_endpoints); tried = []; rr_index = rr }
  unfolding attempts_from
  runs-empty k i skipped last rr h = rw (h, attempts_from) refl

  runs-ok :
      (k i : ℕ) (skipped : List String) (last : Option String) (rr : ℕ) (e : Entry)
      (es : List Entry) (a : A)
      → candidates (world.monitor i) entries skipped ≡ e ∷ es
      → let (x, rr') = pick policy (world.monitor i) (world.draw i) rr e es in
        world.fn i x.url ≡ ok a
        → runs (suc k) i skipped last rr ≡ (
            let (x, rr') = pick policy (world.monitor i) (world.draw i) rr e es in
            record { outcome = ok a; tried = x ∷ []; rr_index = rr' })
  unfolding attempts_from
  runs-ok k i skipped last rr e es a h f = rw (h, f, attempts_from) refl

  runs-err :
      (k i : ℕ) (skipped : List String) (last : Option String) (rr : ℕ) (e : Entry)
      (es : List Entry) (m : String)
      → candidates (world.monitor i) entries skipped ≡ e ∷ es
      → let (x, rr') = pick policy (world.monitor i) (world.draw i) rr e es in
        world.fn i x.url ≡ err m
        → runs (suc k) i skipped last rr ≡ (
            let (x, rr') = pick policy (world.monitor i) (world.draw i) rr e es in
            let rest = runs k (i + 1) (skipped ++ x.id ∷ []) (some m) rr' in
            record rest { tried = x ∷ rest.tried })
  unfolding attempts_from
  runs-err k i skipped last rr e es m h f = rw (h, f, attempts_from) refl

  eligible :
      (i : ℕ) (skipped : List String) (rr : ℕ) (e : Entry) (es : List Entry)
      → candidates (world.monitor i) entries skipped ≡ e ∷ es
      → IsEligible
          (world.monitor i)
          entries
          skipped
          (pick policy (world.monitor i) (world.draw i) rr e es).0
  eligible i skipped rr e es h =
      let x = (pick policy (world.monitor i) (world.draw i) rr e es).0 in
      In-candidates (world.monitor i) entries skipped x
        (subst (In x) (sym h) (In-pick policy (world.monitor i) (world.draw i) rr e es))

  runs-Serves :
      (k i : ℕ) (skipped : List String) (last : Option String) (rr : ℕ)
      → let r = runs k i skipped last rr in Serves k i skipped last r.tried r.outcome
  unfolding attempts_from
  runs-Serves zero i skipped last rr = (refl, inl refl)
  runs-Serves (suc k) i skipped last rr =
      elim (List-cases (candidates (world.monitor i) entries skipped)) [
        | inl h ↦
            subst (λ r. Serves (suc k) i skipped last r.tried r.outcome)
              (sym (runs-empty k i skipped last rr h))
              (refl, inr (candidates-none (world.monitor i) entries skipped h))
        | inr (e, es, h) ↦
            let (x, rr') = pick policy (world.monitor i) (world.draw i) rr e es in
            let may = eligible i skipped rr e es h in
            elim (Outcome-cases (world.fn i x.url)) [
              | inl (m, f) ↦
                  subst (λ r. Serves (suc k) i skipped last r.tried r.outcome)
                    (sym (runs-err k i skipped last rr e es m h f))
                    (may, inr (m, f, runs-Serves k (i + 1) (skipped ++ x.id ∷ []) (some m) rr'))
              | inr (a, f) ↦
                  subst (λ r. Serves (suc k) i skipped last r.tried r.outcome)
                    (sym (runs-ok k i skipped last rr e es a h f)) (may, inl (a, f, refl, refl))
            ]
      ]

  is_skipped-grows :
      (skipped : List String) (s id : String)
      → is_skipped (skipped ++ s ∷ []) id ≡ false
      → (is_skipped skipped id ≡ false) × (str_eq s id ≡ false)
  is_skipped-grows [] s id h = ground (arith, h)
  is_skipped-grows (t ∷ skipped) s id h = ground (arith, h, is_skipped-grows skipped s id)

  -- No two endpoints of a list have the same id.
  abbrev pub AreDistinct : List Entry → Type 0
  AreDistinct [] = Unit
  AreDistinct (x ∷ xs) = All (λ y. str_eq x.id y.id ≡ false) xs × AreDistinct xs

  split_skipped :
      (skipped : List String) (s : String) (xs : List Entry)
      → All (λ y. is_skipped (skipped ++ s ∷ []) y.id ≡ false) xs
      → All (λ y. is_skipped skipped y.id ≡ false) xs × All (λ y. str_eq s y.id ≡ false) xs
  split_skipped skipped s [] h = (tt, tt)
  split_skipped skipped s (x ∷ xs) (p, h) =
      let (a, b) = is_skipped-grows skipped s x.id p in
      let (fresh, others) = split_skipped skipped s xs h in ((a, fresh), (b, others))

  -- What is tried is not skipped, distinct, known and enabled, and not more than the attempts that are left.
  pub record Tried (k : ℕ) (skipped : List String) (xs : List Entry) : Type 0 where
    pub bounded : length xs ≤ k
    pub fresh : All (λ y. is_skipped skipped y.id ≡ false) xs
    pub distinct : AreDistinct xs
    pub known : All (λ y. In y entries × (y.enabled ≡ true)) xs

  Serves-Tried :
      (k i : ℕ) (skipped : List String) (last : Option String) (xs : List Entry)
      (o : Outcome String A)
      → Serves k i skipped last xs o
      → Tried k skipped xs
  Serves-Tried k i skipped last [] o h = record {
    bounded = omega arith;
    fresh = tt;
    distinct = tt;
    known = tt;
  }
  Serves-Tried zero i skipped last (x ∷ xs) o h = absurd h
  Serves-Tried (suc k) i skipped last (x ∷ xs) o (may, inl (a, f, nil, e)) =
      subst (λ ys. Tried (suc k) skipped (x ∷ ys)) (sym nil)
        (record {
          bounded = omega arith;
          fresh = ((is_skipped_not_iff skipped x.id).1 may.fresh, tt);
          distinct = (tt, tt);
          known = ((may.known, may.enabled), tt);
        })
  Serves-Tried (suc k) i skipped last (x ∷ xs) o (may, inr (m, f, rest)) =
      let t = Serves-Tried k (i + 1) (skipped ++ x.id ∷ []) (some m) xs o rest in
      let (fresh, others) = split_skipped skipped x.id xs t.fresh in
      record {
        bounded = omega (arith, t.bounded);
        fresh = ((is_skipped_not_iff skipped x.id).1 may.fresh, fresh);
        distinct = (others, t.distinct);
        known = ((may.known, may.enabled), t.known);
      }

module _ {A : Type 0} (world : World A) (m : Manager) where
  -- Whatever the policy, the monitor and the draws do, `execute` tries enabled endpoints, never two of one id,
  -- and at most one more than the retries. It returns what the first of them that succeeds returns, and
  -- throws the last error where no attempt is left or no endpoint is that is enabled, not unhealthy
  -- and not tried.
  pub execute-Serves :
      let r = execute world m in
      Tried world m.policy m.entries (suc m.max_retries) [] r.tried
      × Serves world m.policy m.entries (suc m.max_retries) 0 [] none r.tried r.outcome
  execute-Serves =
      let r = execute world m in
      let serves = runs-Serves world m.policy m.entries (suc m.max_retries) 0 [] none m.rr_index in
      (
        Serves-Tried world m.policy m.entries (suc m.max_retries) 0 [] none r.tried r.outcome
            serves,
        serves,
      )
