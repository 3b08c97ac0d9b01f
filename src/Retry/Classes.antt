-- ===== src/Retry/Classes.antt =====
-- Which errors are retried (src/retry/errorClassification.ts).
use axionvera_sdk.Prelude.{
  ℕ, ◌≡◌, refl, sym, ◌↔◌, ◌⊎◌, inl, inr, String, true, false, Option, none, some, List, [], ◌∷◌,
  any, if◌then◌else◌, ◌==◌, str_eq, eq_iff, arith, Bool-cases, In,
}
use axionvera_sdk.Retry.Error.{
  Thrown, sdk_error, js_error, value, retryable_status_codes, retryable_error_names,
  non_retryable_error_names, has_name, has_retryable_status, is_retryable_error,
}

-- An `Error` with one of the names.
abbrev pub IsNamed : List String → Thrown → Type 0
IsNamed names (sdk_error name status) = In name names
IsNamed names (js_error name status) = In name names
IsNamed names (value kind status) = ⊥

abbrev pub IsTransient : Option ℕ → Type 0
IsTransient none = ⊥
IsTransient (some code) = In code retryable_status_codes

abbrev pub HasTransientStatus : Thrown → Type 0
HasTransientStatus (sdk_error name status) = IsTransient status
HasTransientStatus (js_error name status) = IsTransient status
HasTransientStatus (value kind status) = IsTransient status

has_name-In : (names : List String) (name : String) → (has_name names name ≡ true) ↔ In name names
has_name-In [] name = ((λ e. cc), (λ h. absurd h))
has_name-In (n ∷ names) name =
    let (to, from) = has_name-In names name in
    elim (Bool-cases (str_eq n name)) [
      | inl e ↦ rw e ((λ _. inl (sym ((eq_iff n name).0 e))), (λ _. refl))
      | inr e ↦ rw e (
        (λ h. inr (to h)),
        (λ h. elim h [
          | inl same ↦ absurd (cc (e, (eq_iff n name).1 (sym same)))
          | inr there ↦ from there
        ]),
      )
    ]

any_code-In : (codes : List ℕ) (code : ℕ) → (any (λ k. k == code) codes ≡ true) ↔ In code codes
any_code-In [] code = ((λ e. cc), (λ h. absurd h))
any_code-In (k ∷ codes) code = let (to, from) = any_code-In codes code in ground (arith, to, from)

has_retryable_status-IsTransient :
    (status : Option ℕ) → (has_retryable_status status ≡ true) ↔ IsTransient status
unfolding has_retryable_status
has_retryable_status-IsTransient none = ((λ e. cc), (λ h. absurd h))
has_retryable_status-IsTransient (some code) = any_code-In retryable_status_codes code

classified :
    (name : String) (status : Option ℕ)
    → ((if has_name non_retryable_error_names name
          then false
          else if has_name retryable_error_names name
          then true
          else has_retryable_status status)
        ≡ true)
      ↔ (¬ In name non_retryable_error_names × (In name retryable_error_names ⊎ IsTransient status))
classified name status =
    let (non, of_non) = has_name-In non_retryable_error_names name in
    let (named, of_named) = has_name-In retryable_error_names name in
    let (code, of_code) = has_retryable_status-IsTransient status in
    elim (Bool-cases (has_name non_retryable_error_names name)) [
      | inl e ↦ rw e ((λ h. cc), (λ h. absurd (h.0 (non e))))
      | inr e ↦ rw e (elim (Bool-cases (has_name retryable_error_names name)) [
        | inl f ↦ rw f ((λ _. ((λ h. cc (e, of_non h)), inl (named f))), (λ _. refl))
        | inr f ↦ rw f (
          (λ h. ((λ h. cc (e, of_non h)), inr (code h))),
          (λ h. elim h.1 [
            | inl there ↦ absurd (cc (f, of_named there))
            | inr there ↦ of_code there
          ]),
        )
      ])
    ]

-- An error is retried exactly if its name is not one of the permanent ones, and its name is one of the
-- transient ones or its status is. A value that is not an `Error` has no name.
pub is_retryable_error_iff :
    (e : Thrown)
    → (is_retryable_error e ≡ true) ↔ (
        ¬ IsNamed non_retryable_error_names e
        × (IsNamed retryable_error_names e ⊎ HasTransientStatus e))
unfolding is_retryable_error
is_retryable_error_iff (sdk_error name status) = classified name status
is_retryable_error_iff (js_error name status) = classified name status
is_retryable_error_iff (value kind status) =
    let (code, of_code) = has_retryable_status-IsTransient status in
    (
      (λ h. ((λ x. x), inr (code h))),
      (λ h. elim h.1 [ inl x ↦ absurd x | inr there ↦ of_code there ]),
    )
