-- ===== src/Plugin/Versions.antt =====
-- The order of the versions of plugins (src/plugin/validation.ts).
use Prim.Native.Nat.{compare, Ordering}
use axionvera_sdk.Prelude.{
  ℕ, ◌<◌, ◌≡◌, refl, sym, Option, none, some, List, [], ◌∷◌, ℤ, pos, negsuc, arith, ◌⊎◌, ◌↔◌,
}
use axionvera_sdk.Plugin.SemVer.{
  SemVer, parse_int, compare_int, or_compare, text_of, compare_numbers, compare_part, compare_parts,
  compare_pre_release, compare_sem_ver, split,
}

-- The answer for the two versions the other way round.
abbrev pub flip : Ordering → Ordering
flip Ordering.lt = Ordering.gt
flip Ordering.eq = Ordering.eq
flip Ordering.gt = Ordering.lt

pub compare-flip : (m n : ℕ) → compare n m ≡ flip (compare m n)
compare-flip m n = ground arith

compare_int-flip : (x y : ℤ) → compare_int y x ≡ flip (compare_int x y)
compare_int-flip (pos m) (pos n) = compare-flip m n
compare_int-flip (pos m) (negsuc n) = refl
compare_int-flip (negsuc m) (pos n) = refl
compare_int-flip (negsuc m) (negsuc n) = compare-flip n m

or_compare-flip :
    (first second : Ordering)
    → flip (or_compare first second) ≡ or_compare (flip first) (flip second)
or_compare-flip Ordering.lt second = refl
or_compare-flip Ordering.eq second = refl
or_compare-flip Ordering.gt second = refl

pub or_compare_cong :
    (a b c d : Ordering) → a ≡ flip c → b ≡ flip d → or_compare a b ≡ flip (or_compare c d)
or_compare_cong a b c d e f = rw (e, f) (sym (or_compare-flip c d))

module _ (collate : List ℕ → List ℕ → Ordering)
    (fair : (a b : List ℕ) → collate b a ≡ flip (collate a b)) where
  compare_numbers-flip :
      (x y : Option ℤ) (o p : Ordering)
      → p ≡ flip o
      → compare_numbers collate y x p ≡ flip (compare_numbers collate x y o)
  compare_numbers-flip none none o p h = h
  compare_numbers-flip none (some y) o p h = h
  compare_numbers-flip (some x) none o p h = h
  compare_numbers-flip (some x) (some y) o p h = compare_int-flip x y

  compare_part-flip : (a b : List ℕ) → compare_part collate b a ≡ flip (compare_part collate a b)
  unfolding compare_part
  compare_part-flip a b =
      compare_numbers-flip (parse_int a) (parse_int b) (collate a b) (collate b a) (fair a b)

  compare_parts-flip :
      (xs ys : List (List ℕ)) → compare_parts collate ys xs ≡ flip (compare_parts collate xs ys)
  unfolding compare_parts
  compare_parts-flip [] [] = refl
  compare_parts-flip [] (y ∷ ys) = refl
  compare_parts-flip (x ∷ xs) [] = refl
  compare_parts-flip (x ∷ xs) (y ∷ ys) =
      or_compare_cong _ _ _ _ (compare_part-flip x y) (compare_parts-flip xs ys)

  compare_pre_release-flip :
      (a b : List ℕ) → compare_pre_release collate b a ≡ flip (compare_pre_release collate a b)
  unfolding compare_pre_release
  compare_pre_release-flip [] [] = refl
  compare_pre_release-flip [] (d ∷ b) = refl
  compare_pre_release-flip (c ∷ a) [] = refl
  compare_pre_release-flip (c ∷ a) (d ∷ b) = compare_parts-flip (split (c ∷ a)) (split (d ∷ b))

  -- Where `localeCompare` answers the opposite for the opposite order of its texts, so does compareSemVer:
  -- of two versions one is the lower one exactly if the other is the higher one.
  pub compare_sem_ver-flip :
      (a b : SemVer) → compare_sem_ver collate b a ≡ flip (compare_sem_ver collate a b)
  unfolding compare_sem_ver
  compare_sem_ver-flip a b = or_compare_cong _ _ _ _ (compare-flip a.major b.major) (
      or_compare_cong _ _ _ _ (compare-flip a.minor b.minor) (
        or_compare_cong _ _ _ _ (compare-flip a.patch b.patch)
          (compare_pre_release-flip (text_of a.pre_release) (text_of b.pre_release))))

-- The order of the numbers, first the major ones, then the minor ones, then the patches.
abbrev pub Below : SemVer → SemVer → Type 0
Below a b =
    (a.major < b.major)
    ⊎ ((a.major ≡ b.major) × ((a.minor < b.minor) ⊎ ((a.minor ≡ b.minor) × (a.patch < b.patch))))

abbrev pub SameNumbers : SemVer → SemVer → Type 0
SameNumbers a b = (a.major ≡ b.major) × (a.minor ≡ b.minor) × (a.patch ≡ b.patch)

-- A version is below another one exactly if its numbers are, or they have the same numbers and only the
-- first is a pre-release, or both are and the parts of the first come before those of the second.
pub compare_sem_ver-lt_iff :
    (collate : List ℕ → List ℕ → Ordering) (a b : SemVer)
    → (compare_sem_ver collate a b ≡ Ordering.lt) ↔ (
        Below a b
        ⊎ (SameNumbers a b
            × (compare_pre_release collate (text_of a.pre_release) (text_of b.pre_release)
                ≡ Ordering.lt)))
unfolding compare_sem_ver
compare_sem_ver-lt_iff collate a b =
    let o = compare_pre_release collate (text_of a.pre_release) (text_of b.pre_release) in
    ground arith
