-- ===== src/Odds/Tests.antt =====
-- The odds at concrete inputs, with Decimals of three places.
use native.Mathlib.Nat
use Prim.Native.String.{◌++◌}
use seer.Common.{
  ℕ, ◌+◌, ◌-◌, ◌*◌, ◌/◌, ◌%◌, ◌<◌, ◌==◌, ◌≡◌, refl, ap, ◌∙◌, [], ◌∷◌, All, arith, leb,
}
use seer.Common.Result.{ok}
use seer.Odds.Parts.{
  Text, concat, IsRun, Alternate, split_number_like_parts, split_number_like_parts_lem,
}
use seer.Odds.Formats.{fractional}
use seer.Odds.Decimals.{Decimals, AreExact}
use seer.Odds.Widgets.{to_fraction, format_odds}
use seer.Odds.Fractions.{IsLowest, fractional-IsLowest}

-- "1.5x"
abbrev text : Text
text = b'1' ∷ b'.' ∷ b'5' ∷ b'x' ∷ []

split_number_like_parts_example :
    (concat (split_number_like_parts text) ≡ text)
    × All IsRun (split_number_like_parts text)
    × Alternate (split_number_like_parts text)
split_number_like_parts_example = split_number_like_parts_lem text

abbrev three_places : Decimals
three_places = record {
  D = ℕ;
  of_nat = λ a. a * 1000;
  half = 500;
  div = λ a b. a * 1000 / b;
  minus = λ a b. a - b;
  mul = λ a b. a * b / 1000;
  modulo = λ a b. a % b;
  abs = λ a. a;
  round = λ a. (a + 500) / 1000 * 1000;
  equals = λ a b. a == b;
  greater_than_or_equal_to = λ a b. leb b a;
  less_than_or_equal_to = λ a b. leb a b;
  to_decimal_places = λ a k m. a;
  to_fixed = λ a k. "x";
  N = ℕ;
  to_number = λ a. a;
  n_zero = 0;
  n_one = 1;
  number_text = λ a. "n";
}

mod_scaled : (a b : ℕ) → 0 < b → a * 1000 % (b * 1000) ≡ a % b * 1000
mod_scaled a b h =
    ap (λ n. n % (b * 1000)) split
    ∙ Nat.add-mul-mod_self_left (a % b * 1000) (b * 1000) (a / b)
    ∙ Nat.mod-eq_of_lt small
  where
    split : a * 1000 ≡ a % b * 1000 + b * 1000 * (a / b)
    split = rw (Nat.mul_right_comm b 1000 (a / b), ← Nat.add-mul, Nat.mod-add-div)

    small : a % b * 1000 < b * 1000
    small = omega (arith, Nat.mod-lt a h)

div_scaled : (a b : ℕ) → 0 < b → a * b * 1000 * 1000 / (b * 1000) ≡ a * 1000
div_scaled a b h =
    Nat.mul-div-mul_right {m = 1000} (a * b * 1000) b (omega arith)
    ∙ ap (λ n. n / b) (Nat.mul_right_comm a b 1000)
    ∙ Nat.mul-div_cancel (a * 1000) h

abbrev three_places_exact : AreExact three_places 1000
three_places_exact = record {
  equals-of_nat = λ a. ground arith;
  abs-of_nat = λ a. refl;
  modulo-of_nat = λ a b small h. mod_scaled a b h;
  div-of_nat = λ a b small h. div_scaled a b h;
}

-- 0.4 is 150 to 100, which is 3 to 2.
fractional-IsLowest_example :
    (n : ℕ) × (d : ℕ) × (to_fraction three_places 101 400 ≡ ok (n * 1000, d * 1000))
    × (format_odds three_places 101 400 fractional ≡ ok ("n" ++ "/" ++ "n"))
    × IsLowest 150 100 n d
fractional-IsLowest_example =
    fractional-IsLowest three_places three_places_exact 101 150 400 (omega arith) (omega arith)
      (omega arith) refl refl
