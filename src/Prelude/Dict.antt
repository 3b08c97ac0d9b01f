-- ===== src/Prelude/Dict.antt =====
-- JavaScript's `Map<string, V>` as an association list in insertion order: `set` on a key that is
-- there keeps its place, and on a new key appends; `delete` removes the key.
use Prim.Native.String.{String}
use mathlib.Core.Path.{◌≡◌, refl, sym, subst, ◌∙◌}
use mathlib.Core.Logic.{◌⊎◌, inl, inr}
use mathlib.Core.Bool.{Bool}
use mathlib.Core.Option.{Option, none, some}
use mathlib.Core.List.{List, [], ◌∷◌, map}
use native.Mathlib.Omega.{arith}
use text.Mathlib.Text.{◌==◌ as str_eq}
use text.Mathlib.TextEquality.{eq_iff}
use axionvera_sdk.Prelude.Tests.{if◌then◌else◌, is_some, Bool-cases}

abbrev pub Dict {ℓ} : Type ℓ → Type ℓ
Dict V = List (String × V)

module _ {ℓ} {V : Type ℓ} where
  unfoldable pub get : String → Dict V → Option V
  get key [] = none
  get key ((first, v) ∷ rest) = if str_eq first key then some v else get key rest

  unfoldable pub set : String → V → Dict V → Dict V
  set key new [] = (key, new) ∷ []
  set key new ((first, v) ∷ rest) =
      if str_eq first key then (first, new) ∷ rest else (first, v) ∷ set key new rest

  unfoldable pub delete : String → Dict V → Dict V
  delete k [] = []
  delete k ((j, w) ∷ m) = if str_eq j k then delete k m else (j, w) ∷ delete k m

  abbrev pub has : String → Dict V → Bool
  has k m = is_some (get k m)

  abbrev pub values : Dict V → List V
  values = map λ e. e.1

  pub get-set :
      (key other : String) (new : V) (m : Dict V)
      → get other (set key new m) ≡ (if str_eq key other then some new else get other m)
  unfolding get set
  get-set key other new [] = ground arith
  get-set key other new ((first, v) ∷ rest) =
      let step = get-set key other new rest in
      ground (arith, step, eq_iff first other, eq_iff first key, eq_iff key other)

  pub get-delete :
      (key other : String) (m : Dict V)
      → get other (delete key m) ≡ (if str_eq key other then none else get other m)
  unfolding get delete
  get-delete key other [] = ground arith
  get-delete key other ((first, v) ∷ rest) =
      let step = get-delete key other rest in
      ground (arith, step, eq_iff first other, eq_iff first key, eq_iff key other)

  -- What is found after `set` is the new value, or was there before; after `delete`, it was there before.
  pub get-set_cases :
      (key other : String) (new v : V) (m : Dict V)
      → get other (set key new m) ≡ some v
      → ((key ≡ other) × (new ≡ v)) ⊎ (get other m ≡ some v)
  get-set_cases key other new v m h = ground (arith, h, get-set key other new m, eq_iff key other)

  pub get-delete_before :
      (key other : String) (v : V) (m : Dict V)
      → get other (delete key m) ≡ some v
      → get other m ≡ some v
  get-delete_before key other v m h = ground (arith, h, get-delete key other m)

  -- No key stands twice, as in a `Map`.
  abbrev pub IsDistinct : Dict V → Type ℓ
  IsDistinct [] = Unit
  IsDistinct ((k, v) ∷ m) = (get k m ≡ none) × IsDistinct m

  pub set-IsDistinct : (k : String) (v : V) (m : Dict V) → IsDistinct m → IsDistinct (set k v m)
  unfolding get set
  set-IsDistinct k v [] h = (refl, tt)
  set-IsDistinct k v ((j, w) ∷ m) (new, h) = elim (Bool-cases (str_eq j k)) [
    | inl e ↦ rw e (new, h)
    | inr e ↦
        rw e (get-set k j v m ∙ ground (arith, eq_iff k j, eq_iff j k), set-IsDistinct k v m h)
  ]

  pub delete-IsDistinct : (k : String) (m : Dict V) → IsDistinct m → IsDistinct (delete k m)
  unfolding delete
  delete-IsDistinct k [] h = tt
  delete-IsDistinct k ((j, w) ∷ m) (new, h) = elim (Bool-cases (str_eq j k)) [
    | inl e ↦ rw e (delete-IsDistinct k m h)
    | inr e ↦ rw e (get-delete k j m ∙ ground arith, delete-IsDistinct k m h)
  ]

  -- A property of all entries, and of one that is looked up.
  module _ {κ} (P : String → V → Type κ) where
    abbrev pub Holds : Dict V → Type κ
    Holds [] = Unit
    Holds ((k, v) ∷ m) = P k v × Holds m

    pub Holds-set : (k : String) (v : V) (m : Dict V) → P k v → Holds m → Holds (set k v m)
    unfolding set
    Holds-set k v [] p h = (p, tt)
    Holds-set k v ((j, w) ∷ m) p (q, h) = elim (Bool-cases (str_eq j k)) [
      | inl e ↦ rw e (subst (λ i. P i v) (sym ((eq_iff j k).0 e)) p, h)
      | inr e ↦ rw e (q, Holds-set k v m p h)
    ]

    pub Holds-delete : (k : String) (m : Dict V) → Holds m → Holds (delete k m)
    unfolding delete
    Holds-delete k [] h = tt
    Holds-delete k ((j, w) ∷ m) (q, h) = elim (Bool-cases (str_eq j k)) [
      | inl e ↦ rw e (Holds-delete k m h)
      | inr e ↦ rw e (q, Holds-delete k m h)
    ]

    pub Holds-get : (k : String) (v : V) (m : Dict V) → Holds m → get k m ≡ some v → P k v
    unfolding get
    Holds-get k v [] h e = cc
    Holds-get k v ((j, w) ∷ m) (q, h) e = elim (Bool-cases (str_eq j k)) [
      | inl same ↦
          let hit : w ≡ v = ground arith in
          subst (λ i. P i v) ((eq_iff j k).0 same) (subst (P j) hit q)
      | inr other ↦ Holds-get k v m h (ground arith)
    ]
