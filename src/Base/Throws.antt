-- ===== src/Base/Throws.antt =====
-- The result of code that may throw: a value, or what was thrown.
use mathlib.Core.Path.{◌≡◌, refl}
use mathlib.Core.Logic.{◌⊎◌, inl, inr}
use mathlib.Core.Bool.{Bool, true, false}
use mathlib.Core.Option.{Option, none, some}

pub data Result {ℓ κ} (E : Type ℓ) (A : Type κ) : Type (ℓ ⊔ κ) where
  err : E → Result E A
  ok : A → Result E A

module _ {ℓ κ} {E : Type ℓ} {A : Type κ} where
  pub Result-cases : (r : Result E A) → ((a : A) × (r ≡ ok a)) ⊎ ((e : E) × (r ≡ err e))
  Result-cases (err e) = inr (e, refl)
  Result-cases (ok a) = inl (a, refl)

  -- A value that must be there.
  abbrev pub ok_or : Option A → E → Result E A
  ok_or none thrown = err thrown
  ok_or (some value) thrown = ok value

-- `if (!test) throw thrown`
abbrev pub checked {ℓ} : {E : Type ℓ} → Bool → E → Result E Bool
checked false thrown = err thrown
checked true thrown = ok true

module _ {ℓ κ μ} {E : Type ℓ} {A : Type κ} {B : Type μ} where
  infixl 5 ◌>>=◌
  abbrev pub ◌>>=◌ : Result E A → (A → Result E B) → Result E B
  ◌>>=◌ first next = elim first [ err thrown ↦ err thrown | ok value ↦ next value ]

  -- What comes of two steps has come of each.
  pub both_ok :
      (next : A → Result E B) (first : Result E A) {result : B}
      → (first >>= next) ≡ ok result
      → (value : A) × (first ≡ ok value) × (next value ≡ ok result)
  both_ok next (err thrown) came = cc
  both_ok next (ok value) came = (value, refl, came)

-- A step after another is split under any predicate.
pub bind_splits {ℓ κ μ ν} :
    {E : Type ℓ} {A : Type κ} {B : Type μ} (P : Result E B → Type ν) (first : Result E A)
    (next : A → Result E B)
    → ((thrown : E) → P (err thrown))
    → ((value : A) → first ≡ ok value → P (next value))
    → P (first >>= next)
bind_splits P (err thrown) next h k = h thrown
bind_splits P (ok value) next h k = k value refl
