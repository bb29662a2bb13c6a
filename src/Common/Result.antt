-- ===== src/Common/Result.antt =====
-- Calls that may throw, and loops on fuel that may run out of it.
use mathlib.Core.Path.{◌≡◌, refl, ap}

pub data Result {ℓ} (A : Type ℓ) : Type ℓ where
  thrown out_of_fuel : Result A
  ok : A → Result A

module _ {ℓ κ} {A : Type ℓ} {B : Type κ} where
  infixl 5 ◌>>=◌
  abbrev pub ◌>>=◌ : Result A → (A → Result B) → Result B
  thrown >>= next = thrown
  out_of_fuel >>= next = out_of_fuel
  ok value >>= next = next value

  -- A bind succeeds only through a first call that succeeds.
  pub >>=-eq-ok :
      (first : Result A) (next : A → Result B) {final : B}
      → (first >>= next) ≡ ok final
      → (value : A) × (first ≡ ok value) × (next value ≡ ok final)
  >>=-eq-ok thrown next e = cc
  >>=-eq-ok out_of_fuel next e = cc
  >>=-eq-ok (ok value) next e = (value, refl, e)

module _ {ℓ} {A : Type ℓ} where
  pub ok-injective : {a b : A} → ok a ≡ ok b → a ≡ b
  ok-injective {a} e = ap (value_or a) e
    where
      value_or : A → Result A → A
      value_or d (ok value) = value
      value_or d _ = d
