-- ===== src/Plugin/Precedence.antt =====
-- When one version comes before another (compareSemVer of src/plugin/validation.ts).
use Prim.Native.Nat.{Ordering}
use axionvera_sdk.Prelude.{
  ℕ, ◌<◌, ◌≡◌, ◌≢◌, ◌∙◌, refl, inl, inr, ◌⊎◌, none, some, List, [], ◌∷◌, ℤ, pos, negsuc, arith,
  Option-cases,
}
use axionvera_sdk.Plugin.SemVer.{
  SemVer, parse_int, compare_int, text_of, compare_part, compare_parts, compare_pre_release,
  compare_sem_ver, split,
}
use axionvera_sdk.Plugin.Versions.{Below, SameNumbers, compare_sem_ver-lt_iff}

abbrev IsSmaller : ℤ → ℤ → Type 0
IsSmaller (pos m) (pos n) = m < n
IsSmaller (pos m) (negsuc n) = ⊥
IsSmaller (negsuc m) (pos n) = Unit
IsSmaller (negsuc m) (negsuc n) = n < m

compare_int_smaller : (x y : ℤ) → IsSmaller x y → compare_int x y ≡ Ordering.lt
compare_int_smaller (pos m) (pos n) h = ground arith
compare_int_smaller (pos m) (negsuc n) h = absurd h
compare_int_smaller (negsuc m) (pos n) h = refl
compare_int_smaller (negsuc m) (negsuc n) h = ground arith

compare_int_same : (x : ℤ) → compare_int x x ≡ Ordering.eq
compare_int_same (pos m) = ground arith
compare_int_same (negsuc m) = ground arith

-- One of the parts does not begin with a number.
abbrev NotNumbers : List ℕ → List ℕ → Type 0
NotNumbers a b = (parse_int a ≡ none) ⊎ (parse_int b ≡ none)

module _ (collate : List ℕ → List ℕ → Ordering) where
  -- Two parts that are numbers stand as these, others as their texts.
  abbrev IsPartBefore : List ℕ → List ℕ → Type 0
  IsPartBefore a b =
      ((x : ℤ) × (y : ℤ) × (parse_int a ≡ some x) × (parse_int b ≡ some y) × IsSmaller x y)
      ⊎ (NotNumbers a b × (collate a b ≡ Ordering.lt))

  abbrev IsPartSame : List ℕ → List ℕ → Type 0
  IsPartSame a b =
      ((x : ℤ) × (parse_int a ≡ some x) × (parse_int b ≡ some x))
      ⊎ (NotNumbers a b × (collate a b ≡ Ordering.eq))

  -- The first part that differs decides, and a list comes before those that go on after it.
  abbrev ArePartsBefore : List (List ℕ) → List (List ℕ) → Type 0
  ArePartsBefore [] [] = ⊥
  ArePartsBefore [] (b ∷ bs) = Unit
  ArePartsBefore (a ∷ more) [] = ⊥
  ArePartsBefore (a ∷ more) (b ∷ bs) = IsPartBefore a b ⊎ (IsPartSame a b × ArePartsBefore more bs)

  -- A pre-release comes before a version without one; two are compared by their parts, which dots separate.
  abbrev IsPreReleaseBefore : List ℕ → List ℕ → Type 0
  IsPreReleaseBefore a b = (a ≢ []) × ((b ≡ []) ⊎ ((b ≢ []) × ArePartsBefore (split a) (split b)))

  -- A version is lower than another by its numbers, or it has the same numbers and its pre-release comes first.
  abbrev pub IsLower : SemVer → SemVer → Type 0
  IsLower a b =
      Below a b
      ⊎ (SameNumbers a b × IsPreReleaseBefore (text_of a.pre_release) (text_of b.pre_release))

  compare_part_texts : (a b : List ℕ) → NotNumbers a b → compare_part collate a b ≡ collate a b
  unfolding compare_part
  compare_part_texts a b (inl e) = rw e refl
  compare_part_texts a b (inr e) = elim (Option-cases (parse_int a)) [
    | inl n ↦ rw n refl
    | inr (x, n) ↦ rw (n, e) refl
  ]

  compare_part_before : (a b : List ℕ) → IsPartBefore a b → compare_part collate a b ≡ Ordering.lt
  unfolding compare_part
  compare_part_before a b (inl (x, y, e, f, less)) = rw (e, f) (compare_int_smaller x y less)
  compare_part_before a b (inr (n, e)) = compare_part_texts a b n ∙ e

  compare_part_same : (a b : List ℕ) → IsPartSame a b → compare_part collate a b ≡ Ordering.eq
  unfolding compare_part
  compare_part_same a b (inl (x, e, f)) = rw (e, f) (compare_int_same x)
  compare_part_same a b (inr (n, e)) = compare_part_texts a b n ∙ e

  compare_parts_before :
      (xs ys : List (List ℕ)) → ArePartsBefore xs ys → compare_parts collate xs ys ≡ Ordering.lt
  unfolding compare_parts
  compare_parts_before [] [] h = absurd h
  compare_parts_before [] (b ∷ bs) h = refl
  compare_parts_before (a ∷ more) [] h = absurd h
  compare_parts_before (a ∷ more) (b ∷ bs) (inl h) = rw (compare_part_before a b h) refl
  compare_parts_before (a ∷ more) (b ∷ bs) (inr (same, h)) =
      rw (compare_part_same a b same) (compare_parts_before more bs h)

  compare_pre_release_before :
      (a b : List ℕ) → IsPreReleaseBefore a b → compare_pre_release collate a b ≡ Ordering.lt
  unfolding compare_pre_release
  compare_pre_release_before [] b (n, h) = absurd (n refl)
  compare_pre_release_before (c ∷ a) [] (n, h) = refl
  compare_pre_release_before (c ∷ a) (d ∷ b) (n, inl e) = absurd cc
  compare_pre_release_before (c ∷ a) (d ∷ b) (n, inr (_, h)) =
      compare_parts_before (split (c ∷ a)) (split (d ∷ b)) h

  pub compare_sem_ver_lower :
      (a b : SemVer) → IsLower a b → compare_sem_ver collate a b ≡ Ordering.lt
  compare_sem_ver_lower a b (inl h) = (compare_sem_ver-lt_iff collate a b).1 (inl h)
  compare_sem_ver_lower a b (inr (same, h)) =
      (compare_sem_ver-lt_iff collate a b).1 (inr (same, compare_pre_release_before _ _ h))
