-- ===== src/Numbers.antt =====
-- The arithmetic that the client computes with and does not implement: JavaScript's floating-point
-- numbers (F) and the Decimals of decimal.js (D), with the constants and operations that it uses.
use seer.Common.{ℕ, Bool}

pub data Rounding : Type 0 where
  round_up round_down : Rounding

pub record Numbers : Type 1 where
  pub F : Type 0
  pub zero : F
  pub two : F
  pub thousandth : F  -- `10 ** -3`
  pub nan : F  -- what a missing array element stands for in a sum or a quotient
  pub add : F → F → F
  pub sub : F → F → F
  pub mul : F → F → F
  pub div : F → F → F
  pub max : F → F → F
  pub neg : F → F
  pub exp : F → F
  pub log : F → F
  pub gt : F → F → Bool
  pub D : Type 0
  pub d_zero : D
  pub d_one : D
  pub of_number : F → D
  pub to_number : D → F
  pub plus : D → D → D
  pub minus : D → D → D
  pub over : D → D → D
  pub to_decimal_places : D → ℕ → Rounding → D
