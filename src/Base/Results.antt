-- ===== src/Base/Results.antt =====
-- Go's `(value, error)` results: a value, or the error that is returned in its place.
use mathlib.Core.Path.{◌≡◌, refl}

pub data Result {ℓ κ} (E : Type ℓ) (A : Type κ) : Type (ℓ ⊔ κ) where
  ok : A → Result E A
  err : E → Result E A

module _ {ℓ κ ι} {E : Type ℓ} {A : Type κ} {B : Type ι} where
  infixl 5 ◌>>=◌
  -- `if err != nil { return err }`, and the rest of the function on the value.
  abbrev pub ◌>>=◌ : Result E A → (A → Result E B) → Result E B
  err failure >>= rest = err failure
  ok value >>= rest = rest value

  -- A chain that returns a value has got one from its first call.
  pub >>=-ok :
      {out : B} (first : Result E A) (rest : A → Result E B)
      → (first >>= rest) ≡ ok out
      → (mid : A) × (first ≡ ok mid) × (rest mid ≡ ok out)
  >>=-ok (err failure) rest e = cc
  >>=-ok (ok mid) rest e = (mid, refl, e)
