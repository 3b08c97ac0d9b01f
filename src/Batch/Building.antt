-- ===== src/Batch/Building.antt =====
-- What BatchBuilder (src/batch/batchBuilder.ts) validates and builds.
use axionvera_sdk.Prelude.{
  Bool-cases, Option, if◌then◌else◌, ◌≡◌, refl, ap, ◌∙◌, ◌↔◌, inl, inr, String, true, false, none,
  some, [], str_eq, ok, err, arith,
}
use text.Mathlib.TextEquality.{eq_iff}
use axionvera_sdk.Batch.Types.{ValidationResult}
use axionvera_sdk.Batch.Validator.{
  is_blank, missing_text, validate_or_throw as batch_validate_or_throw, validate as batch_validate,
}
use axionvera_sdk.Batch.Checks.{IsConfigured}
use axionvera_sdk.Batch.Accepts.{IsAcceptable, validate_iff}
use axionvera_sdk.Batch.Builder.{
  Builder, batch_validator, build_config, validate, validate_or_throw, build, is_missing,
}

-- A passphrase that is not blank is not empty.
present-of-not_blank : (p : Option String) → missing_text p ≡ false → is_missing p ≡ false
unfolding is_blank
present-of-not_blank none e = cc
present-of-not_blank (some s) e = elim (Bool-cases (str_eq s "")) [
  | inl empty ↦ absurd (cc (e, ap is_blank ((eq_iff s "").0 empty)))
  | inr other ↦ other
]

module _ {Op Account : Type 0} where
  build-IsConfigured :
      (b : Builder Op Account)
      → IsConfigured (build_config b)
      → build b ≡ ok (record { transactions = b.transactions; config = build_config b })
  unfolding build build_config
  build-IsConfigured b k =
      let p = present-of-not_blank b.config.network_passphrase k.passphrase in
      ground (arith, p, k.account)

  throws :
      (b : Builder Op Account) (r : ValidationResult)
      → batch_validate b.transactions (build_config b) ≡ some r
      → batch_validate_or_throw b.transactions (build_config b)
        ≡ some (if r.valid then ok tt else err r)
  unfolding batch_validate_or_throw
  throws b r e = rw (e, batch_validate_or_throw) refl

  -- With the validator of the package, `validate` and `validateOrThrow` return, and judge the batch that
  -- `build` makes. `validate` records whether it is acceptable, `validateOrThrow` throws exactly if it is
  -- not, and a batch that is acceptable is built.
  pub validate-build :
      (b : Builder Op Account)
      → b.validator ≡ batch_validator
      → (r : ValidationResult) × (validate b ≡ some (record b { last_validation = some r }))
        × ((r.valid ≡ true) ↔ IsAcceptable b.transactions (build_config b))
        × (validate_or_throw b
            ≡ some (
                if r.valid
                then ok (record b { last_validation = some (record { valid = true; issues = [] }) })
                else err r))
        × (r.valid ≡ true
            → build b ≡ ok (record { transactions = b.transactions; config = build_config b }))
  unfolding validate validate_or_throw
  validate-build b e =
      let (r, returns, iff) = validate_iff b.transactions (build_config b) in
      (
        r,
        rw (ap (λ v. v.validate b.transactions (build_config b)) e ∙ returns, validate) refl,
        iff,
        rw
            (
              ap (λ v. v.validate_or_throw b.transactions (build_config b)) e ∙ throws b r returns,
              validate_or_throw,
            )
            (ground arith),
        λ v. build-IsConfigured b (iff.0 v).configured,
      )
