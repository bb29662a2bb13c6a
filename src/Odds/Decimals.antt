-- ===== src/Odds/Decimals.antt =====
-- What frontend/seer/src/lib/odds.ts and ui/odds use of decimal.js, and of JavaScript's numbers and text. `round` and
-- `to_fixed` round in the mode that is set for all Decimals.
use seer.Common.{ℕ, ◌*◌, ◌%◌, ◌<◌, ◌==◌, ◌≡◌, Bool, String}

pub data Mode : Type 0 where
  up down : Mode

pub record Decimals : Type 1 where
  pub D : Type 0
  pub of_nat : ℕ → D  -- `new Decimal(n)` of a whole number
  pub half : D  -- the literal 0.5
  pub div : D → D → D
  pub minus : D → D → D
  pub mul : D → D → D
  pub modulo : D → D → D
  pub abs : D → D
  pub round : D → D
  pub equals : D → D → Bool
  pub greater_than_or_equal_to : D → D → Bool
  pub less_than_or_equal_to : D → D → Bool
  pub to_decimal_places : D → ℕ → Mode → D
  pub to_fixed : D → ℕ → String
  pub N : Type 0
  pub to_number : D → N
  pub n_zero : N
  pub n_one : N
  pub number_text : N → String  -- a number in a template

-- Whole numbers below the limit, which is 10 ^ 12 for the 12 digits that lib/lslmsr/lslmsr.ts sets, are exact.
pub record AreExact (E : Decimals) (limit : ℕ) : Type 0 where
  pub equals-of_nat : (a : ℕ) → E.equals (E.of_nat a) (E.of_nat 0) ≡ (a == 0)
  pub abs-of_nat : (a : ℕ) → E.abs (E.of_nat a) ≡ E.of_nat a
  pub modulo-of_nat :
      (a b : ℕ) → a < limit → 0 < b → E.modulo (E.of_nat a) (E.of_nat b) ≡ E.of_nat (a % b)
  pub div-of_nat :
      (a b : ℕ) → a * b < limit → 0 < b → E.div (E.of_nat (a * b)) (E.of_nat b) ≡ E.of_nat a
