-- ===== src/Plugin/Members.antt =====
-- The lists of ids that stand for the sets of src/plugin/validation.ts.
use axionvera_sdk.Prelude.{
  ℕ, ◌≤◌, ◌<◌, ◌≡◌, refl, sym, ap, ◌↔◌, inl, inr, String, Bool, true, false, not, List, [], ◌∷◌, In,
  keep, length, length-keep-le, arith, Bool-cases, str_eq, eq_iff, eq_refl,
}
use axionvera_sdk.Plugin.Cycles.{is_member}

pub is_member_iff : (id : String) (ids : List String) → (is_member id ids ≡ true) ↔ In id ids
is_member_iff id [] = ((λ h. cc), (λ h. absurd h))
is_member_iff id (i ∷ is) = ground (arith, is_member_iff id is, eq_iff i id)

pub is_member_not : (id : String) (ids : List String) → is_member id ids ≡ false → ¬ In id ids
is_member_not id ids h m = ground (arith, (is_member_iff id ids).1 m)

-- Taking out what was put in.
pub keep-new :
    (id : String) (ids : List String) → ¬ In id ids → keep (λ i. not (str_eq i id)) (id ∷ ids) ≡ ids
keep-new id ids h = rw (eq_refl id) (keep-absent ids h)
  where
    keep-absent : (is : List String) → ¬ In id is → keep (λ i. not (str_eq i id)) is ≡ is
    keep-absent [] h = refl
    keep-absent (i ∷ is) h = elim (Bool-cases (str_eq i id)) [
      | inl e ↦ absurd (h (inl (sym ((eq_iff i id).0 e))))
      | inr e ↦ rw e (ap (λ r. i ∷ r) (keep-absent is (λ m. h (inr m))))
    ]

-- How many of some ids fail a test of membership.
abbrev pub left : (String → Bool) → List String → ℕ
left seen ids = length (keep (λ i. not (seen i)) ids)

pub left-le :
    (seen more : String → Bool) (ids : List String)
    → ((i : String) → seen i ≡ true → more i ≡ true)
    → left more ids ≤ left seen ids
left-le seen more [] h = omega arith
left-le seen more (i ∷ is) h = ground (arith, left-le seen more is h, h i)

pub left-lt :
    (seen more : String → Bool) (id : String) (ids : List String)
    → ((i : String) → seen i ≡ true → more i ≡ true)
    → In id ids
    → seen id ≡ false
    → more id ≡ true
    → left more ids < left seen ids
left-lt seen more id [] h m e f = absurd m
left-lt seen more id (i ∷ is) h (inl here) e f =
    ground (arith, left-le seen more is h, h i, ap seen here, ap more here)
left-lt seen more id (i ∷ is) h (inr there) e f =
    ground (arith, left-lt seen more id is h there e f, h i)

pub left-le_length : (seen : String → Bool) (ids : List String) → left seen ids ≤ length ids
left-le_length seen ids = length-keep-le (λ i. not (seen i)) ids
