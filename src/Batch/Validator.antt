-- ===== src/Batch/Validator.antt =====
-- src/batch/batchValidator.ts: BatchValidator. Pushing to `issues` is appending to a list.
use axionvera_sdk.Prelude.{
  ℕ, suc, String, Bool, true, false, ◌&&◌, Option, none, some, List, [], ◌∷◌, ◌++◌, map, any,
  length, if◌then◌else◌, ◌==◌, leb, str_eq, or_else, is_empty, is_some, ℤ, pos, negsuc,
  is_nonpositive, Outcome, ok, err, get_elem?,
}
use Prim.Native.Char.{code}
use axionvera_sdk.Batch.Types.{
  Dependency, Transaction, Config, Category, dependency, fee, account, operation, config, Message,
  source_account_required, network_passphrase_required, fee_not_positive, timeout_not_positive,
  no_transactions, label_empty, no_operations, depends_on_itself, out_of_range, does_not_precede,
  part_of_cycle, Issue, ValidationResult,
}
use axionvera_sdk.Batch.Cycles.{detect_cycles}

-- The code points that `trim` removes.
abbrev pub space_codes : List ℕ
space_codes =
    0x20 ∷ 0x09 ∷ 0x0a ∷ 0x0b ∷ 0x0c ∷ 0x0d ∷ 0xa0 ∷ 0x1680 ∷ 0x2000 ∷ 0x2001 ∷ 0x2002 ∷ 0x2003
    ∷ 0x2004 ∷ 0x2005 ∷ 0x2006 ∷ 0x2007 ∷ 0x2008 ∷ 0x2009 ∷ 0x200a ∷ 0x2028 ∷ 0x2029 ∷ 0x202f
    ∷ 0x205f ∷ 0x3000 ∷ 0xfeff ∷ []

-- `s.trim().length === 0`
unfoldable pub is_blank : String → Bool
is_blank String.[] = true
is_blank (String.◌∷◌ c s) = any (λ k. k == code c) space_codes && is_blank s

abbrev pub issue : Option ℕ → Option String → Category → Message → List Issue
issue i label category message =
    record { transaction_index = i; label = label; category = category; message = message } ∷ []

abbrev pub given_nonpositive : Option ℤ → Bool
given_nonpositive none = false
given_nonpositive (some z) = is_nonpositive z

-- `!passphrase || passphrase.trim().length === 0`
abbrev pub missing_text : Option String → Bool
missing_text none = true
missing_text (some s) = is_blank s

unfoldable pub validate_config : {Account : Type 0} → Config Account → List Issue
validate_config c =
    (if is_some c.source_account then [] else issue none none account source_account_required)
    ++ ((if missing_text c.network_passphrase
          then issue none none config network_passphrase_required
          else [])
        ++ ((if given_nonpositive c.fee_per_operation
              then issue none none fee fee_not_positive
              else [])
            ++ (if given_nonpositive c.timeout_in_seconds
                then issue none none config timeout_not_positive
                else [])))

-- `label: tx.label || `index-${i}``; `none` stands for the generated label.
abbrev pub label_or_none : String → Option String
label_or_none s = if str_eq s "" then none else some s

-- The loop of `validateTransactions`.
unfoldable pub check_transactions : {Op : Type 0} → ℕ → List (Transaction Op) → List Issue
check_transactions i [] = []
check_transactions i (t ∷ ts) =
    (if is_blank t.label then issue (some i) none operation (label_empty i) else [])
    ++ ((if is_empty t.operations
          then issue (some i) (label_or_none t.label) operation (no_operations i)
          else [])
        ++ check_transactions (suc i) ts)

unfoldable pub validate_transactions : {Op : Type 0} → List (Transaction Op) → List Issue
unfolding check_transactions
validate_transactions ts =
    if is_empty ts then issue none none operation no_transactions else check_transactions 0 ts

-- One dependency of transaction `i` of `n`: the tests in the order of the source.
unfoldable pub check_dependency : ℕ → ℕ → String → ℤ → List Issue
check_dependency n i label (negsuc k) =
    issue (some i) (some label) dependency (out_of_range i (negsuc k))
check_dependency n i label (pos k) =
    if k == i
    then issue (some i) (some label) dependency (depends_on_itself i)
    else if leb n k
    then issue (some i) (some label) dependency (out_of_range i (pos k))
    else if leb i k
    then issue (some i) (some label) dependency (does_not_precede i k)
    else []

unfoldable pub check_each : ℕ → ℕ → String → List Dependency → List Issue
unfolding check_dependency
check_each n i label [] = []
check_each n i label (d ∷ ds) =
    check_dependency n i label d.depends_on_index ++ check_each n i label ds

unfoldable pub check_dependencies : {Op : Type 0} → ℕ → ℕ → List (Transaction Op) → List Issue
unfolding check_each
check_dependencies n i [] = []
check_dependencies n i (t ∷ ts) =
    check_each n i t.label (or_else t.dependencies []) ++ check_dependencies n (suc i) ts

abbrev pub label_at : {Op : Type 0} → List (Transaction Op) → ℕ → Option String
label_at ts u = elim (get_elem? ts u) [ none ↦ none | some t ↦ some t.label ]

unfoldable pub cycle_issues : {Op : Type 0} → List (Transaction Op) → List ℕ → List Issue
cycle_issues ts us =
    map
      (λ u. record {
        transaction_index = some u;
        label = label_at ts u;
        category = dependency;
        message = part_of_cycle u;
      })
      us

unfoldable pub validate_dependencies : {Op : Type 0} → List (Transaction Op) → Option (List Issue)
validate_dependencies ts = elim (detect_cycles ts) [
  | none ↦ none
  | some us ↦ some (check_dependencies (length ts) 0 ts ++ cycle_issues ts us)
]

-- The result of `validate`, from the issues with the dependencies.
abbrev pub report :
    {Op Account : Type 0} → List (Transaction Op) → Config Account → List Issue → ValidationResult
report ts c deps =
    let issues = validate_config c ++ (validate_transactions ts ++ deps) in
    record { valid = is_empty issues; issues = issues }

-- `none` only if the search for cycles ran out of fuel, which it does not.
unfoldable pub validate :
    {Op Account : Type 0} → List (Transaction Op) → Config Account → Option ValidationResult
validate ts c = elim (validate_dependencies ts) [
  | none ↦ none
  | some deps ↦ some (report ts c deps)
]

-- Throws a BatchValidationError, which carries the result, or returns.
unfoldable pub validate_or_throw :
    {Op Account : Type 0}
    → List (Transaction Op)
    → Config Account
    → Option (Outcome ValidationResult (Unit {0}))
unfolding validate
validate_or_throw ts c = elim (validate ts c) [
  | none ↦ none
  | some r ↦ some (if r.valid then ok tt else err r)
]
