-- ===== src/Odds/Widgets.antt =====
-- `formatOdds` of frontend/seer/src/lib/odds.ts, `gcd` of lib/lslmsr/math_util.ts, and the numbers that
-- ui/odds/AnimatedOdds.tsx shows.
use Prim.Native.String.{◌++◌}
use seer.Common.{ℕ, zero, suc, if◌then◌else◌, String}
use seer.Common.Result.{Result, ok, out_of_fuel, ◌>>=◌}
use seer.Odds.Decimals.{Decimals, up, down}
use seer.Odds.Formats.{OddsFormat, decimal, american, fractional, percent}

module _ (E : Decimals) where
  open E use {
    D, of_nat, half, div, minus, mul, modulo, abs, round, equals, greater_than_or_equal_to,
    less_than_or_equal_to, to_decimal_places, to_fixed, N, to_number, n_zero, n_one, number_text,
  }

  unfoldable pub gcd : ℕ → D → D → Result D
  gcd zero a b = out_of_fuel
  gcd (suc fuel) a b =
      let rest = gcd fuel b (modulo a b) in if equals b (of_nat 0) then ok a else rest

  -- `(1/prob - 1) * 100`, rounded to a whole number.
  abbrev pub hundredths : D → D
  hundredths prob = round (mul (minus (div (of_nat 1) prob) (of_nat 1)) (of_nat 100))

  abbrev pub american_value : D → D
  american_value prob =
      if greater_than_or_equal_to prob half
      then mul (div prob (minus (of_nat 1) prob)) (of_nat 100)
      else mul (div (minus (of_nat 1) prob) prob) (of_nat 100)

  abbrev pub american_sign : D → String
  american_sign prob = if greater_than_or_equal_to prob half then "-" else "+"

  unfoldable pub format_odds : ℕ → D → OddsFormat → Result String
  format_odds fuel prob decimal = ok (to_fixed (to_decimal_places (div (of_nat 1) prob) 2 down) 2)
  format_odds fuel prob american = ok (american_sign prob ++ to_fixed (american_value prob) 0)
  format_odds fuel prob fractional = do
    let num = hundredths prob
    let den = of_nat 100
    g ← gcd fuel (abs num) den
    ok (
        number_text (to_number (div num (abs g)))
        ++ "/"
        ++ number_text (to_number (div den (abs g))))
  format_odds fuel prob percent =
      ok (to_fixed (to_decimal_places (mul prob (of_nat 100)) 0 up) 0 ++ "%")

  unfoldable pub to_decimal_odds : D → N
  to_decimal_odds p =
      if less_than_or_equal_to p (of_nat 0)
      then n_zero
      else to_number (to_decimal_places (div (of_nat 1) p) 2 down)

  -- Without a mode the rounding is the one that lib/lslmsr/lslmsr.ts sets for all Decimals, ROUND_DOWN.
  unfoldable pub to_percent : D → N
  to_percent p =
      if less_than_or_equal_to p (of_nat 0) then n_zero else to_number (to_decimal_places p 2 down)

  unfoldable pub to_american : D → String × N
  to_american p =
      if less_than_or_equal_to p (of_nat 0)
      then ("+", n_zero)
      else (american_sign p, to_number (to_decimal_places (american_value p) 0 down))

  abbrev pub fraction_of : ℕ → D → D → Result (N × N)
  fraction_of fuel num den = do
    g ← gcd fuel (abs num) den
    ok (to_number (div num (abs g)), to_number (div den (abs g)))

  -- With `maxDen` at its default, 100.
  unfoldable pub to_fraction : ℕ → D → Result (N × N)
  to_fraction fuel p =
      let rest = fraction_of fuel (hundredths p) (of_nat 100) in
      if less_than_or_equal_to p (of_nat 0) then ok (n_zero, n_one) else rest
