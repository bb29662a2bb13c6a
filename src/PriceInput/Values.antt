-- ===== src/PriceInput/Values.antt =====
-- frontend/seer/src/ui/PriceInput.tsx: the numbers that its texts of digits stand for.
use native.Mathlib.Nat
use native.Mathlib.Nat.{mul-le-mul, mul-pos, mul-lt-mul_of_pos_right}
use seer.Common.{
  ℕ, zero, suc, ◌+◌, ◌-◌, ◌*◌, ◌≤◌, ◌<◌, ◌≡◌, refl, ap, true, false, [], ◌∷◌, arith, length, take,
  replicate, Bool-cases, all, any, ltb, inl, inr, ◌==◌,
}
use seer.PriceInput.{Text, add_carry, inc_int_string, is_tie, should_up, is_nonzero_digit}
use seer.PriceInput.Digits.{
  AreDigits, value, place, place-pos, place_congr, length-add_carry, add_carry-AreDigits,
  value-add_carry,
}

abbrev pub zero_digit : ℕ
zero_digit = b'0'

pub value-lt-place : (s : Text) → AreDigits s → value s < place s
value-lt-place [] h = omega arith
value-lt-place (c ∷ s) (d, h) =
    let small : c - b'0' ≤ 9 = ground arith in
    omega (arith, value-lt-place s h, mul-le-mul small (Nat.le_refl (place s)))

pub value-zeros : (n : ℕ) → value (replicate n b'0') ≡ 0
value-zeros zero = refl
value-zeros (suc n) = omega (arith, value-zeros n)

pub value_of_all_zero : (s : Text) → all (λ c. c == b'0') s ≡ true → value s ≡ 0
value_of_all_zero [] h = refl
value_of_all_zero (c ∷ s) h =
    let e : c ≡ 48 = ground arith in rw e (omega (arith, value_of_all_zero s (ground arith)))

pub value_of_any_nonzero : (s : Text) → any is_nonzero_digit s ≡ true → 0 < value s
value_of_any_nonzero [] h = cc
value_of_any_nonzero (c ∷ s) h = elim (Bool-cases (is_nonzero_digit c)) [
  | inl yes' ↦
      let big : 1 ≤ c - b'0' = ground arith in
      omega (arith, place-pos s, mul-le-mul big (Nat.le_refl (place s)))
  | inr none' ↦ omega (arith, value_of_any_nonzero s (rw none' at h))
]

pub value_of_no_nonzero : (s : Text) → AreDigits s → any is_nonzero_digit s ≡ false → value s ≡ 0
value_of_no_nonzero [] d h = refl
value_of_no_nonzero (c ∷ s) (d, ds) h =
    let e : c ≡ 48 = ground arith in rw e (omega (arith, value_of_no_nonzero s ds (ground arith)))

-- What the tests on the dropped digits say of them: not more than half a unit, or more.
pub value_of_is_tie : (rest : Text) → is_tie rest ≡ true → 2 * value rest ≡ place rest
unfolding is_tie
value_of_is_tie [] h = cc
value_of_is_tie (r ∷ rest) h =
    let e : r ≡ 53 = ground arith in rw e (omega (arith, value_of_all_zero rest (ground arith)))

pub value_of_should_up :
    (rest : Text) → AreDigits rest → should_up rest ≡ true → place rest < 2 * value rest
unfolding should_up
value_of_should_up [] d h = cc
value_of_should_up (r ∷ rest) (d, ds) h = elim (Bool-cases (ltb b'5' r)) [
  | inl more ↦
      let big : 6 ≤ r - b'0' = ground arith in
      omega (arith, place-pos rest, mul-le-mul big (Nat.le_refl (place rest)))
  | inr no_more ↦
      let e : r ≡ 53 = ground arith in
      rw e (omega (arith, value_of_any_nonzero rest (ground arith)))
]

pub value_of_not_up :
    (rest : Text) → AreDigits rest → should_up rest ≡ false → 2 * value rest ≤ place rest
unfolding should_up
value_of_not_up [] d h = omega arith
value_of_not_up (r ∷ rest) (d, ds) h = elim (Bool-cases (r == b'5')) [
  | inl five ↦
      let e : r ≡ 53 = ground arith in
      rw e (omega (arith, value_of_no_nonzero rest ds (ground arith)))
  | inr other ↦
      let small : r - b'0' ≤ 4 = ground arith in
      omega (arith, value-lt-place rest ds, mul-le-mul small (Nat.le_refl (place rest)))
]

pub take_all : (n : ℕ) (s : Text) → length s ≡ n → take n s ≡ s
take_all zero [] e = refl
take_all zero (c ∷ s) e = absurd (omega arith)
take_all (suc n) [] e = refl
take_all (suc n) (c ∷ s) e = ap (λ t. c ∷ t) (take_all n s (omega arith))

pub value-inc_int_string : (s : Text) → AreDigits s → value (inc_int_string s) ≡ value s + 1
unfolding inc_int_string
value-inc_int_string [] h = refl
value-inc_int_string (c ∷ s) h = elim (Bool-cases (add_carry (c ∷ s)).1) [
  | inl carry ↦ rw carry (
      omega (
        arith,
        rw carry at (value-add_carry (c ∷ s) h),
        place_congr (add_carry (c ∷ s)).0 (c ∷ s) (length-add_carry (c ∷ s)),
      ))
  | inr done ↦ rw done (omega (arith, rw done at (value-add_carry (c ∷ s) h)))
]

pub inc_int_string-AreDigits : (s : Text) → AreDigits s → AreDigits (inc_int_string s)
unfolding inc_int_string
inc_int_string-AreDigits [] h = (refl, tt)
inc_int_string-AreDigits (c ∷ s) h = ground (arith, add_carry-AreDigits (c ∷ s) h)
