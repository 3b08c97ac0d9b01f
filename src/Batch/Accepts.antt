-- ===== src/Batch/Accepts.antt =====
-- When a batch passes validation (src/batch/batchValidator.ts).
use axionvera_sdk.Prelude.{
  ℕ, suc, ◌+◌, ◌≡◌, refl, sym, ap, ◌∙◌, ◌↔◌, true, false, some, List, [], ◌∷◌, ◌++◌, All, arith,
  length, is_empty,
}
use axionvera_sdk.Batch.Types.{Transaction, Config, ValidationResult}
use axionvera_sdk.Batch.Cycles.{start, adjacency, detect_cycles}
use axionvera_sdk.Batch.Fuel.{detect_cycles-returns}
use axionvera_sdk.Batch.Dfs.{search_roots-in_cycle}
use axionvera_sdk.Batch.Validator.{
  validate_config, validate_transactions, check_dependencies, cycle_issues, validate_dependencies,
  validate, report,
}
use axionvera_sdk.Batch.Checks.{
  IsConfigured, AreOrdered, IsComplete, append-nil_iff, validate_config-IsConfigured,
  check_transactions-IsComplete, check_dependencies-AreOrdered, All-below_mono, adjacency-below,
}

-- Dependencies that all precede their transaction make no cycle.
detect_cycles-AreOrdered :
    {Op : Type 0} (ts : List (Transaction Op)) → AreOrdered 0 ts → detect_cycles ts ≡ some []
unfolding detect_cycles
detect_cycles-AreOrdered ts h =
    let n = length ts in
    let (t, e, same) =
      search_roots-in_cycle (adjacency n ts)
        (λ u. All-below_mono (0 + u) u _ (omega arith) (adjacency-below n 0 ts u h)) (suc n) n 0
        start (omega arith) (λ w k. absurd (omega arith)) (λ w k. refl) in
    rw (e, detect_cycles) (ap some same)

-- What a batch must satisfy to be accepted.
pub record IsAcceptable {Op Account : Type 0} (ts : List (Transaction Op)) (c : Config Account)
    : Type 0 where
  pub configured : IsConfigured c
  pub nonempty : is_empty ts ≡ false
  pub complete : All IsComplete ts
  pub ordered : AreOrdered 0 ts

validate_transactions-IsComplete :
    {Op : Type 0} (ts : List (Transaction Op))
    → (validate_transactions ts ≡ []) ↔ ((is_empty ts ≡ false) × All IsComplete ts)
unfolding validate_transactions
validate_transactions-IsComplete [] = ((λ e. cc), (λ h. cc))
validate_transactions-IsComplete (t ∷ ts) =
    let (to, from) = check_transactions-IsComplete 0 (t ∷ ts) in
    ((λ e. (refl, to e)), (λ h. from h.1))

is_empty-nil_iff {ℓ} : {A : Type ℓ} (xs : List A) → (is_empty xs ≡ true) ↔ (xs ≡ [])
is_empty-nil_iff [] = ((λ _. refl), (λ _. refl))
is_empty-nil_iff (x ∷ xs) = ((λ e. cc), (λ e. cc))

cycle_issues-nil :
    {Op : Type 0} (ts : List (Transaction Op)) (us : List ℕ) → us ≡ [] → cycle_issues ts us ≡ []
unfolding cycle_issues
cycle_issues-nil ts [] e = refl
cycle_issues-nil ts (u ∷ us) e = cc

some-inj {ℓ} : {A : Type ℓ} (a b : A) → some a ≡ some b → a ≡ b
some-inj a b e = cc

validate_dependencies-some :
    {Op : Type 0} (ts : List (Transaction Op)) (us : List ℕ)
    → detect_cycles ts ≡ some us
    → validate_dependencies ts ≡ some (check_dependencies (length ts) 0 ts ++ cycle_issues ts us)
unfolding validate_dependencies
validate_dependencies-some ts us e = rw (e, validate_dependencies)

report-IsAcceptable :
    {Op Account : Type 0} (ts : List (Transaction Op)) (c : Config Account) (us : List ℕ)
    → detect_cycles ts ≡ some us
    → ((report ts c (check_dependencies (length ts) 0 ts ++ cycle_issues ts us)).valid ≡ true)
      ↔ IsAcceptable ts c
report-IsAcceptable ts c us e =
    let deps = check_dependencies (length ts) 0 ts in
    let (cto, cfrom) = validate_config-IsConfigured c in
    let (tto, tfrom) = validate_transactions-IsComplete ts in
    let (dto, dfrom) = check_dependencies-AreOrdered (length ts) 0 ts (omega arith) in
    let (split, join) =
      append-nil_iff (validate_config c)
        (validate_transactions ts ++ (deps ++ cycle_issues ts us)) in
    let (split₂, join₂) = append-nil_iff (validate_transactions ts) (deps ++ cycle_issues ts us) in
    let (split₃, join₃) = append-nil_iff deps (cycle_issues ts us) in
    let (eto, efrom) =
      is_empty-nil_iff
        (validate_config c ++ (validate_transactions ts ++ (deps ++ cycle_issues ts us))) in
    (
      (λ v.
          let (no_config, rest) = split (eto v) in
          let (no_transactions, rest₂) = split₂ rest in
          let (nonempty, complete) = tto no_transactions in
          record {
            configured = cto no_config;
            nonempty = nonempty;
            complete = complete;
            ordered = dto (split₃ rest₂).0;
          }),
      (λ a.
          let no_cycles : us ≡ [] =
            some-inj us [] (sym e ∙ detect_cycles-AreOrdered ts a.ordered) in
          efrom (
            join (
              cfrom a.configured,
              join₂ (
                tfrom (a.nonempty, a.complete),
                join₃ (dfrom a.ordered, cycle_issues-nil ts us no_cycles),
              ),
            ))),
    )

-- `validate` always returns, and finds a batch valid exactly if its account, passphrase, fee and timeout
-- are acceptable, it has a transaction, each transaction has a label that is not blank and an operation,
-- and each dependency names an earlier transaction.
pub validate_iff :
    {Op Account : Type 0} (ts : List (Transaction Op)) (c : Config Account)
    → (r : ValidationResult) × (validate ts c ≡ some r) × ((r.valid ≡ true) ↔ IsAcceptable ts c)
unfolding validate
validate_iff ts c =
    let (us, e) = detect_cycles-returns ts in
    let deps : validate_dependencies ts
        ≡ some (check_dependencies (length ts) 0 ts ++ cycle_issues ts us) =
      validate_dependencies-some ts us e in
    (report ts c _, rw (deps, validate), report-IsAcceptable ts c us e)
