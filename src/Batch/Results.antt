-- ===== src/Batch/Results.antt =====
-- What BatchExecutor (src/batch/batchExecutor.ts) reports of a batch.
use axionvera_sdk.Prelude.{
  ℤ, pos, negsuc, some, or_else, In, In-keep_iff, any, ==_iff, ◌==◌, ℕ, suc, ◌≡◌, refl, sym, ap,
  subst, ◌∙◌, inl, inr, String, true, false, not, ◌&&◌, List, [], ◌∷◌, ◌++◌, append_assoc,
  append-nil, map, if◌then◌else◌, is_empty, arith, Bool-cases,
}
use axionvera_sdk.Batch.Types.{Dependency, Transaction, Config, TransactionResult}
use axionvera_sdk.Batch.Executor.{
  Env, refused, Progress, failed_before, is_completed, unmet, skipped_result, execute_transaction,
  stops, round, run_from,
}

-- The index and the label of each transaction, in order.
abbrev pub numbered : {Op : Type 0} → ℕ → List (Transaction Op) → List (ℕ × String)
numbered i [] = []
numbered i (t ∷ ts) = (i, t.label) ∷ numbered (suc i) ts

abbrev pub heads : {Sim : Type 0} → List (TransactionResult Sim) → List (ℕ × String)
heads = map (λ r. (r.index, r.label))

any-In : (xs : List ℕ) (k : ℕ) → any (λ x. x == k) xs ≡ true → In k xs
any-In [] k h = cc
any-In (x ∷ xs) k h = ground (arith, ==_iff x k, any-In xs k)

module _ {Op Account Tx Sim : Type 0} (env : Env Op Account Tx Sim) (c : Config Account) where
  -- A result of round `i` is that of its transaction: skipped, refused or attempted.
  pub record Pushed (s : Progress Sim) (t : Transaction Op) (i : ℕ) (s' : Progress Sim)
      : Type 0 where
    pub result : TransactionResult Sim
    pub pushed : s'.results ≡ s.results ++ result ∷ []
    pub index : result.index ≡ i
    pub label : result.label ≡ t.label
    pub completed : s'.completed ≡ (if result.success then s.completed ++ i ∷ [] else s.completed)
    pub attempted : result.success ≡ true → unmet s.completed t ≡ []

  pub execute_transaction-index :
      (t : Transaction Op) (i : ℕ)
      → ((execute_transaction env c t i).index ≡ i)
        × ((execute_transaction env c t i).label ≡ t.label)
  unfolding execute_transaction
  execute_transaction-index t i = ground arith

  is_empty→nil : {A : Type 0} (xs : List A) → not (is_empty xs) ≡ false → xs ≡ []
  is_empty→nil [] e = refl
  is_empty→nil (x ∷ xs) e = cc

  round-Pushed : (s : Progress Sim) (t : Transaction Op) (i : ℕ) → Pushed s t i (round env c s t i)
  unfolding round
  round-Pushed s t i = elim (Bool-cases (stops env c && failed_before s.results)) [
    | inl stop ↦ rw stop (record {
      result = refused t i _ _;
      pushed = refl;
      index = refl;
      label = refl;
      completed = refl;
      attempted = λ e. cc;
    })
    | inr go ↦ elim (Bool-cases (not (is_empty (unmet s.completed t)))) [
      | inl lacking ↦
          rw (go, lacking)
            (record {
              result = refused t i _ _;
              pushed = refl;
              index = refl;
              label = refl;
              completed = refl;
              attempted = λ e. cc;
            })
      | inr ready ↦
          rw (go, ready)
            (record {
              result = execute_transaction env c t i;
              pushed = refl;
              index = (execute_transaction-index t i).0;
              label = (execute_transaction-index t i).1;
              completed = refl;
              attempted = λ e. is_empty→nil _ ready;
            })
    ]
  ]

  -- Every dependency that a transaction gives has the index of one that is done.
  abbrev pub IsServed : List ℕ → Transaction Op → Type 0
  IsServed done t =
      (ds : List Dependency) (d : Dependency)
      → t.dependencies ≡ some ds
      → In d ds
      → (k : ℕ) × (d.depends_on_index ≡ pos k) × In k done

  is_completed-In :
      (done : List ℕ) (z : ℤ) → is_completed done z ≡ true → (k : ℕ) × (z ≡ pos k) × In k done
  unfolding is_completed
  is_completed-In done (pos k) h = (k, refl, any-In done k h)
  is_completed-In done (negsuc k) h = cc

  unmet-IsServed : (done : List ℕ) (t : Transaction Op) → unmet done t ≡ [] → IsServed done t
  unfolding unmet
  unmet-IsServed done t h ds d given there =
      let among : In d (or_else t.dependencies []) =
        subst (λ o. In d (or_else o [])) (sym given) there in
      elim (Bool-cases (is_completed done d.depends_on_index)) [
        | inl e ↦ is_completed-In done d.depends_on_index e
        | inr e ↦ absurd (
            subst (In d) h (
              (In-keep_iff (λ x. not (is_completed done x.depends_on_index)) d
                  (or_else t.dependencies [])).1
                (among, rw e refl)))
      ]

  -- Each transaction that succeeds comes after the success of everything that it depends on; `done`
  -- are the indices of the successes so far.
  abbrev pub Respects : List ℕ → List (Transaction Op) → List (TransactionResult Sim) → Type 0
  Respects done [] [] = Unit
  Respects done (t ∷ ts) (r ∷ rs) =
      (r.success ≡ true → IsServed done t)
      × Respects (if r.success then done ++ r.index ∷ [] else done) ts rs
  Respects done _ _ = ⊥

  done-Pushed :
      (s : Progress Sim) (t : Transaction Op) (i : ℕ) (p : Pushed s t i (round env c s t i))
      → (if p.result.success then s.completed ++ p.result.index ∷ [] else s.completed)
        ≡ (round env c s t i).completed
  done-Pushed s t i p = rw p.index (sym p.completed)

  pub record Extended (i : ℕ) (ts : List (Transaction Op)) (s s' : Progress Sim) : Type 0 where
    pub added : List (TransactionResult Sim)
    pub results : s'.results ≡ s.results ++ added
    pub numbers : heads added ≡ numbered i ts
    pub respects : Respects s.completed ts added

  pub run_from-Extended :
      (i : ℕ) (ts : List (Transaction Op)) (s : Progress Sim)
      → Extended i ts s (run_from env c i ts s)
  unfolding run_from
  run_from-Extended i [] s = record {
    added = [];
    results = sym (append-nil _);
    numbers = refl;
    respects = tt;
  }
  run_from-Extended i (t ∷ ts) s =
      let p = round-Pushed s t i in
      let rest = run_from-Extended (suc i) ts (round env c s t i) in
      record {
        added = p.result ∷ rest.added;
        results =
            rest.results
            ∙ ap (λ xs. xs ++ rest.added) p.pushed
            ∙ append_assoc s.results (p.result ∷ []) rest.added;
        numbers = cc (p.index, p.label, rest.numbers);
        respects = (
          λ e. unmet-IsServed s.completed t (p.attempted e),
          subst (λ d. Respects d ts rest.added) (sym (done-Pushed s t i p)) rest.respects,
        );
      }

  -- The results of transactions that are skipped.
  abbrev pub all_skipped : ℕ → List (Transaction Op) → List (TransactionResult Sim)
  all_skipped i [] = []
  all_skipped i (t ∷ ts) = skipped_result t i ∷ all_skipped (suc i) ts
