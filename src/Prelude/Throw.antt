-- ===== src/Prelude/Throw.antt =====
-- The outcome of code that may throw: `ok` with the result, or `err` with the error thrown.
use mathlib.Core.Path.{◌≡◌, refl}
use mathlib.Core.Logic.{◌⊎◌, inl, inr}
use mathlib.Core.Bool.{Bool, true, false}
use mathlib.Core.Option.{Option, none, some}

pub data Outcome {ℓ κ} (E : Type ℓ) (A : Type κ) : Type (ℓ ⊔ κ) where
  ok : A → Outcome E A
  err : E → Outcome E A

module _ {ℓ κ ι} {E : Type ℓ} {A : Type κ} {B : Type ι} where
  -- What follows a call that may throw.
  infixl 5 ◌>>=◌
  abbrev pub ◌>>=◌ : Outcome E A → (A → Outcome E B) → Outcome E B
  err thrown >>= after = err thrown
  ok value >>= after = after value

-- `if (!o) throw e`, of an optional value.
abbrev pub or_throw {ℓ κ} : {E : Type ℓ} {A : Type κ} → Option A → E → Outcome E A
or_throw none e = err e
or_throw (some a) e = ok a

-- `if (!b) throw e`
abbrev pub require {ℓ} : {E : Type ℓ} → Bool → E → Outcome E (Unit {0})
require false thrown = err thrown
require true thrown = ok tt

pub Outcome-cases {ℓ κ} :
    {E : Type ℓ} {A : Type κ} (o : Outcome E A) → ((e : E) × (o ≡ err e)) ⊎ ((a : A) × (o ≡ ok a))
Outcome-cases (err e) = inl (e, refl)
Outcome-cases (ok a) = inr (a, refl)

-- Where a chain of calls does not throw, its first call does not, nor do the others.
pub ok_of_chain {ℓ κ ι} :
    {E : Type ℓ} {A : Type κ} {B : Type ι} (first : Outcome E A) (after : A → Outcome E B) (b : B)
    → (first >>= after) ≡ ok b
    → (a : A) × (first ≡ ok a) × (after a ≡ ok b)
ok_of_chain (err thrown) after b h = cc
ok_of_chain (ok value) after b h = (value, refl, h)

pub err-ne-ok {ℓ κ} :
    {E : Type ℓ} {A : Type κ} (o : Outcome E A) (e : E) (a : A) → o ≡ err e → ¬ (o ≡ ok a)
err-ne-ok o e a h k = cc
