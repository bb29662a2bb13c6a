-- ===== src/PriceInput/Digits.antt =====
-- Digit strings and the numbers that they spell; the carry loop of PriceInput.tsx adds one.
use seer.Common.{
  ℕ, suc, ◌+◌, ◌-◌, ◌*◌, ◌<◌, ◌≡◌, refl, ap, Bool, true, false, [], ◌∷◌, ◌++◌, arith, length, All,
  if◌then◌else◌, Bool-cases, leb, inl, inr,
}
use seer.PriceInput.{Text, is_digit, carry_step, add_carry}

abbrev pub IsDigit : ℕ → Type 0
IsDigit c = is_digit c ≡ true

abbrev pub AreDigits : Text → Type 0
AreDigits = All IsDigit

-- The weight of the digit in front of a digit string: 10 to the power of its length.
abbrev pub place : Text → ℕ
place [] = 1
place (c ∷ s) = 10 * place s

pub place-append : (s t : Text) → place (s ++ t) ≡ place s * place t
place-append [] t = omega arith
place-append (c ∷ s) t = omega (arith, place-append s t)

pub place-pos : (s : Text) → 0 < place s
place-pos [] = omega arith
place-pos (c ∷ s) = omega (arith, place-pos s)

-- The number that a digit string spells.
abbrev pub value : Text → ℕ
value [] = 0
value (c ∷ s) = (c - b'0') * place s + value s

pub value-append : (s t : Text) → value (s ++ t) ≡ value s * place t + value t
value-append [] t = omega arith
value-append (c ∷ s) t =
    omega (arith, value-append s t, ap (λ (p : ℕ). (c - b'0') * p) (place-append s t))

pub place_congr : (s t : Text) → length s ≡ length t → place s ≡ place t
place_congr [] [] e = refl
place_congr [] (d ∷ t) e = absurd (omega arith)
place_congr (c ∷ s) [] e = absurd (omega arith)
place_congr (c ∷ s) (d ∷ t) e = omega (arith, place_congr s t (omega arith))

module _ (c : ℕ) where
  length-carry_step : (p : Text × Bool) → length (carry_step c p).0 ≡ suc (length p.0)
  unfolding carry_step
  length-carry_step (cs, false) = refl
  length-carry_step (cs, true) = ground arith

  carry_step-AreDigits :
      (p : Text × Bool) → IsDigit c → AreDigits p.0 → AreDigits (carry_step c p).0
  unfolding carry_step
  carry_step-AreDigits (cs, false) d h = (d, h)
  carry_step-AreDigits (cs, true) d h = ground arith

  value-carry_step :
      (p : Text × Bool)
      → IsDigit c
      → value (carry_step c p).0 + (if (carry_step c p).1 then 1 else 0) * (10 * place p.0)
        ≡ (c - b'0') * place p.0 + value p.0 + (if p.1 then 1 else 0) * place p.0
  unfolding carry_step
  value-carry_step (cs, false) d = omega arith
  value-carry_step (cs, true) d = elim (Bool-cases (leb 10 (c - b'0' + 1))) [
    | inl nine ↦ let e : c ≡ 57 = ground arith in rw (d, nine, e) (omega arith)
    | inr less ↦
        let e : 48 + (c - 48 + 1) - 48 ≡ c - 48 + 1 = omega arith in
        rw (d, less) (omega (arith, ap (λ (n : ℕ). n * place cs) e))
  ]

pub length-add_carry : (s : Text) → length (add_carry s).0 ≡ length s
unfolding add_carry
length-add_carry [] = refl
length-add_carry (c ∷ s) = omega (arith, length-carry_step c (add_carry s), length-add_carry s)

pub add_carry-AreDigits : (s : Text) → AreDigits s → AreDigits (add_carry s).0
unfolding add_carry
add_carry-AreDigits [] h = tt
add_carry-AreDigits (c ∷ s) (d, h) =
    carry_step-AreDigits c (add_carry s) d (add_carry-AreDigits s h)

-- The loop adds one in the last place, and the carry stands for a digit more.
pub value-add_carry :
    (s : Text)
    → AreDigits s
    → value (add_carry s).0 + (if (add_carry s).1 then 1 else 0) * place s ≡ value s + 1
unfolding add_carry
value-add_carry [] h = refl
value-add_carry (c ∷ s) (d, h) =
    let same : place (add_carry s).0 ≡ place s = place_congr _ _ (length-add_carry s) in
    let step = rw same at (value-carry_step c (add_carry s) d) in
    omega (arith, step, value-add_carry s h)
