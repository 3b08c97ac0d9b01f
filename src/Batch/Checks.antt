-- ===== src/Batch/Checks.antt =====
-- What each check of BatchValidator (src/batch/batchValidator.ts) demands.
use axionvera_sdk.Prelude.{
  ℕ, zero, suc, ◌+◌, ◌≤◌, ◌<◌, ◌≡◌, refl, ◌↔◌, true, false, List, [], ◌∷◌, ◌++◌, All, arith, inl,
  inr, Bool-cases, ℤ, pos, negsuc, or_else, length, is_empty, String, is_some,
}
use axionvera_sdk.Batch.Types.{Dependency, Transaction, Config}
use axionvera_sdk.Batch.Cycles.{push_in_range, in_range, adjacency}
use axionvera_sdk.Batch.Validator.{
  is_blank, given_nonpositive, missing_text, validate_config, check_transactions, check_dependency,
  check_each, check_dependencies,
}

-- What the checks demand, stated without issues or colours.
abbrev pub Precedes : ℕ → ℤ → Type 0
Precedes i (pos k) = k < i
Precedes i (negsuc k) = ⊥

pub record IsConfigured {Account : Type 0} (c : Config Account) : Type 0 where
  pub account : is_some c.source_account ≡ true
  pub passphrase : missing_text c.network_passphrase ≡ false
  pub fee : given_nonpositive c.fee_per_operation ≡ false
  pub timeout : given_nonpositive c.timeout_in_seconds ≡ false

-- Transaction `i` and those after it.
abbrev pub AreOrdered : {Op : Type 0} → ℕ → List (Transaction Op) → Type 0
AreOrdered i [] = Unit
AreOrdered i (t ∷ ts) =
    All (λ d. Precedes i d.depends_on_index) (or_else t.dependencies []) × AreOrdered (suc i) ts

abbrev pub IsComplete : {Op : Type 0} → Transaction Op → Type 0
IsComplete t = (is_blank t.label ≡ false) × (is_empty t.operations ≡ false)

pub append-nil_iff {ℓ} : {A : Type ℓ} (xs ys : List A) → (xs ++ ys ≡ []) ↔ ((xs ≡ []) × (ys ≡ []))
append-nil_iff [] ys = ((λ e. (refl, e)), (λ h. h.1))
append-nil_iff (x ∷ xs) ys = ((λ e. cc), (λ h. cc))

pub validate_config-IsConfigured :
    {Account : Type 0} (c : Config Account) → (validate_config c ≡ []) ↔ IsConfigured c
unfolding validate_config
validate_config-IsConfigured c = ground arith

pub check_transactions-IsComplete :
    {Op : Type 0} (i : ℕ) (ts : List (Transaction Op))
    → (check_transactions i ts ≡ []) ↔ All IsComplete ts
unfolding check_transactions
check_transactions-IsComplete i [] = ground arith
check_transactions-IsComplete i (t ∷ ts) =
    let (to, from) = check_transactions-IsComplete (suc i) ts in
    elim (Bool-cases (is_blank t.label)) [
      | inl e ↦ rw e (ground arith)
      | inr e ↦ elim (Bool-cases (is_empty t.operations)) [
        | inl f ↦ rw (e, f) (ground arith)
        | inr f ↦ rw (e, f) ((λ h. ((refl, refl), to h)), (λ h. from h.1))
      ]
    ]

check_dependency-Precedes :
    (n i : ℕ) (label : String) (z : ℤ) → i < n → (check_dependency n i label z ≡ []) ↔ Precedes i z
unfolding check_dependency
check_dependency-Precedes n i label (pos k) h = ground arith
check_dependency-Precedes n i label (negsuc k) h = ground arith

check_each-Precedes :
    (n i : ℕ) (label : String) (ds : List Dependency)
    → i < n
    → (check_each n i label ds ≡ []) ↔ All (λ d. Precedes i d.depends_on_index) ds
unfolding check_each
check_each-Precedes n i label [] h = ((λ _. tt), (λ _. refl))
check_each-Precedes n i label (d ∷ ds) h =
    let (to, from) = check_each-Precedes n i label ds h in
    let (dto, dfrom) = check_dependency-Precedes n i label d.depends_on_index h in
    let (split, join) =
      append-nil_iff (check_dependency n i label d.depends_on_index) (check_each n i label ds) in
    ((λ e. (dto (split e).0, to (split e).1)), (λ p. join (dfrom p.0, from p.1)))

pub check_dependencies-AreOrdered :
    {Op : Type 0} (n i : ℕ) (ts : List (Transaction Op))
    → i + length ts ≤ n
    → (check_dependencies n i ts ≡ []) ↔ AreOrdered i ts
unfolding check_dependencies
check_dependencies-AreOrdered n i [] h = ((λ _. tt), (λ _. refl))
check_dependencies-AreOrdered n i (t ∷ ts) h =
    let ds = or_else t.dependencies [] in
    let (to, from) = check_dependencies-AreOrdered n (suc i) ts (omega arith) in
    let (dto, dfrom) = check_each-Precedes n i t.label ds (omega arith) in
    let (split, join) =
      append-nil_iff (check_each n i t.label ds) (check_dependencies n (suc i) ts) in
    ((λ e. (dto (split e).0, to (split e).1)), (λ p. join (dfrom p.0, from p.1)))

push_in_range-below :
    (n i : ℕ) (z : ℤ) (row : List ℕ)
    → Precedes i z
    → All (λ v. v < i) row
    → All (λ v. v < i) (push_in_range n z row)
unfolding push_in_range
push_in_range-below n i (pos k) row p h = ground arith
push_in_range-below n i (negsuc k) row p h = h

in_range-below :
    (n i : ℕ) (ds : List Dependency)
    → All (λ d. Precedes i d.depends_on_index) ds
    → All (λ v. v < i) (in_range n ds)
unfolding in_range
in_range-below n i [] h = tt
in_range-below n i (d ∷ ds) (p, h) =
    push_in_range-below n i d.depends_on_index (in_range n ds) p (in_range-below n i ds h)

pub All-below_mono : (i j : ℕ) (vs : List ℕ) → i ≤ j → All (λ v. v < i) vs → All (λ v. v < j) vs
All-below_mono i j [] h b = tt
All-below_mono i j (v ∷ vs) h (p, b) = (omega arith, All-below_mono i j vs h b)

pub adjacency-below :
    {Op : Type 0} (n i : ℕ) (ts : List (Transaction Op)) (u : ℕ)
    → AreOrdered i ts
    → All (λ v. v < i + u) (adjacency n ts u)
unfolding adjacency
adjacency-below n i [] u h = tt
adjacency-below n i (t ∷ ts) zero (p, h) =
    All-below_mono i (i + 0) _ (omega arith) (in_range-below n i (or_else t.dependencies []) p)
adjacency-below n i (t ∷ ts) (suc u) (p, h) =
    All-below_mono (suc i + u) (i + suc u) _ (omega arith) (adjacency-below n (suc i) ts u h)
