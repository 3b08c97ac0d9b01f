-- ===== src/Plugin/Grammar.antt =====
-- Reading a version back from its text (parseSemVer of src/plugin/validation.ts).
use axionvera_sdk.Prelude.{
  ℕ, zero, suc, ◌+◌, ◌*◌, ◌-◌, ◌/◌, ◌%◌, ◌<◌, ◌≡◌, ◌≢◌, refl, ap, ◌∙◌, Bool, true, false, Option,
  none, some, List, [], ◌∷◌, ◌++◌, All, All-append, arith, inl, inr, ltb, if◌then◌else◌, Bool-cases,
  append-nil, is_empty,
}
use axionvera_sdk.Plugin.SemVer.{
  SemVer, is_digit, is_identifier, span, value_from, number, literal, part, part_after,
  match_groups, without_v, parse_sem_ver,
}

-- The decimal digits of a number, with one unit of fuel for each digit.
unfoldable pub digits : ℕ → ℕ → List ℕ
digits zero n = []
digits (suc f) n =
    let rest = digits f (n / 10) in
    if ltb n 10 then (b'0' + n) ∷ [] else rest ++ (b'0' + n % 10) ∷ []

unfoldable pub decimal : ℕ → List ℕ
unfolding digits
decimal n = digits (suc n) n

-- An optional part with its mark.
abbrev pub marked : ℕ → Option (List ℕ) → List ℕ
marked mark none = []
marked mark (some s) = mark ∷ s

-- X.Y.Z, then the pre-release after `-` and the build after `+`, where they are there.
abbrev pub render : SemVer → List ℕ
render v =
    decimal v.major
    ++ b'.'
      ∷ (decimal v.minor
          ++ b'.'
            ∷ (decimal v.patch ++ (marked b'-' v.pre_release ++ marked b'+' v.build_metadata)))

abbrev pub IsName : List ℕ → Type 0
IsName s = All (λ c. is_identifier c ≡ true) s × (s ≢ [])

abbrev pub IsPart : Option (List ℕ) → Type 0
IsPart none = Unit
IsPart (some s) = IsName s

pub record IsPrintable (v : SemVer) : Type 0 where
  pub pre_release_IsPart : IsPart v.pre_release
  pub build_metadata_IsPart : IsPart v.build_metadata

-- A text at which a longest match of `p` ends.
abbrev Ends : (ℕ → Bool) → List ℕ → Type 0
Ends p [] = Unit
Ends p (c ∷ cs) = p c ≡ false

span-append :
    (p : ℕ → Bool) (s rest : List ℕ)
    → All (λ c. p c ≡ true) s
    → Ends p rest
    → span p (s ++ rest) ≡ (s, rest)
unfolding span
span-append p [] [] h e = refl
span-append p [] (c ∷ cs) h e = rw e
span-append p (c ∷ s) rest (q, h) e = rw (q, span-append p s rest h e)

append_ne_nil : (xs : List ℕ) (y : ℕ) → (xs ++ y ∷ []) ≢ []
append_ne_nil [] y e = cc
append_ne_nil (x ∷ xs) y e = cc

value_from-append :
    (n : ℕ) (xs ys : List ℕ) → value_from n (xs ++ ys) ≡ value_from (value_from n xs) ys
unfolding value_from
value_from-append n [] ys = refl
value_from-append n (x ∷ xs) ys = value_from-append (n * 10 + (x - b'0')) xs ys

record AreDigits (n : ℕ) (s : List ℕ) : Type 0 where
  digit : All (λ c. is_digit c ≡ true) s
  value : value_from 0 s ≡ n
  some_digit : s ≢ []

digits-AreDigits : (f n : ℕ) → n < f → AreDigits n (digits f n)
unfolding digits value_from
digits-AreDigits zero n h = absurd (omega arith)
digits-AreDigits (suc f) n h = elim (Bool-cases (ltb n 10)) [
  | inl small ↦
      rw small (record { digit = (ground arith, tt); value = omega arith; some_digit = λ e. cc })
  | inr large ↦
      let tens = digits-AreDigits f (n / 10) (ground arith) in
      rw large (record {
        digit = All-append (λ c. is_digit c ≡ true) _ _ tens.digit (ground arith, tt);
        value = value_from-append 0 (digits f (n / 10)) _ ∙ rw (tens.value) (omega arith);
        some_digit = λ e. append_ne_nil _ _ e;
      })
]

decimal-AreDigits : (n : ℕ) → AreDigits n (decimal n)
unfolding decimal
decimal-AreDigits n = digits-AreDigits (suc n) n (omega arith)

not_empty : (s : List ℕ) → s ≢ [] → is_empty s ≡ false
not_empty [] h = absurd (h refl)
not_empty (c ∷ s) h = refl

number-decimal :
    (n : ℕ) (rest : List ℕ) → Ends is_digit rest → number (decimal n ++ rest) ≡ some (n, rest)
unfolding number
number-decimal n rest e =
    let d = decimal-AreDigits n in
    rw
      (span-append is_digit (decimal n) rest d.digit e, not_empty (decimal n) d.some_digit, d.value)

literal_same : (c : ℕ) (s : List ℕ) → literal c (c ∷ s) ≡ some s
unfolding literal
literal_same c s = ground arith

literal_end : (c : ℕ) → literal c [] ≡ none
unfolding literal
literal_end c = refl

part-marked :
    (mark : ℕ) (o : Option (List ℕ)) (rest : List ℕ)
    → IsPart o
    → Ends is_identifier rest
    → literal mark rest ≡ none
    → part mark (marked mark o ++ rest) ≡ (o, rest)
unfolding part part_after
part-marked mark none rest h e other = rw other
part-marked mark (some s) rest (h, ne) e other =
    rw (literal_same mark (s ++ rest), part_after)
      (rw (span-append is_identifier s rest h e, not_empty s ne))

without_v-digits :
    (s rest : List ℕ) → All (λ c. is_digit c ≡ true) s → s ≢ [] → without_v (s ++ rest) ≡ s ++ rest
unfolding without_v
without_v-digits [] rest h ne = absurd (ne refl)
without_v-digits (c ∷ s) rest (d, h) ne = ground arith

-- No digit follows a number, and no character of a name follows a name.
marked-Ends :
    (p : ℕ → Bool) (mark : ℕ) (o : Option (List ℕ)) (rest : List ℕ)
    → p mark ≡ false
    → Ends p rest
    → Ends p (marked mark o ++ rest)
marked-Ends p mark none rest h e = e
marked-Ends p mark (some s) rest h e = h

literal-build : (o : Option (List ℕ)) → literal b'-' (marked b'+' o ++ []) ≡ none
unfolding literal
literal-build none = refl
literal-build (some s) = refl

match_groups-render : (v : SemVer) → IsPrintable v → match_groups (render v) ≡ some v
unfolding match_groups
match_groups-render v h =
    let build = marked b'+' v.build_metadata ++ [] in
    let build_ends = marked-Ends is_identifier b'+' v.build_metadata [] refl tt in
    let tail_ends =
      marked-Ends is_digit b'-' v.pre_release build refl
        (marked-Ends is_digit b'+' v.build_metadata [] refl tt) in
    rw
      (
        number-decimal v.major _ refl,
        literal_same,
        number-decimal v.minor _ refl,
        literal_same,
        ← append-nil (marked b'+' v.build_metadata),
        number-decimal v.patch _ tail_ends,
      )
      (rw (
        part-marked b'-' v.pre_release build h.pre_release_IsPart build_ends
            (literal-build v.build_metadata),
        part-marked b'+' v.build_metadata [] h.build_metadata_IsPart tt (literal_end b'+'),
      ))

-- The text of a version, whose pre-release and build are not empty and of letters, digits, points and hyphens,
-- is read back as that version, with a leading `v` or without one.
pub parse_sem_ver-render :
    (v : SemVer)
    → IsPrintable v
    → (parse_sem_ver (render v) ≡ some v) × (parse_sem_ver (b'v' ∷ render v) ≡ some v)
unfolding parse_sem_ver
parse_sem_ver-render v h =
    let d = decimal-AreDigits v.major in
    let read = match_groups-render v h in
    (ap match_groups (without_v-digits (decimal v.major) _ d.digit d.some_digit) ∙ read, read)
