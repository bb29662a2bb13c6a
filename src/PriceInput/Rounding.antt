-- ===== src/PriceInput/Rounding.antt =====
-- `roundHalfDownStr` of PriceInput.tsx against arithmetic: the digits that it prints are the nearest
-- ones, and of two equally near the lower.
use seer.PriceInput.Values.{
  zero_digit, value-lt-place, value-zeros, value_of_is_tie, value_of_should_up, value_of_not_up,
  take_all, value-inc_int_string, inc_int_string-AreDigits,
}
use native.Mathlib.Nat
use native.Mathlib.Nat.{mul-le-mul, mul-pos, mul-lt-mul_of_pos_right}
use seer.Common.{
  ℕ, ◌+◌, ◌-◌, ◌*◌, ◌≤◌, ◌<◌, ◌≡◌, refl, ap, ◌∙◌, Bool, true, false, ◌∷◌, ◌++◌, arith, length,
  All-append, All-take, All-drop, All-replicate, length-append, length-take, length-replicate, take,
  drop, replicate, take-append-drop, append-nil, if◌then◌else◌, Bool-cases, leb, ltb, inl, inr, not,
  lt→ltb, leb-false,
}
use seer.PriceInput.{
  Text, add_carry, inc_int_string, add_one, to_fixed_dp, is_tie, should_up, round_parts, pad_start,
}
use seer.PriceInput.Digits.{
  IsDigit, AreDigits, value, value-append, place, place-append, place-pos, place_congr,
  length-add_carry, add_carry-AreDigits, value-add_carry,
}

-- `out` prints, with dp decimals, the number nearest to `int_part.frac_part`: the difference is at
-- most half a unit of the last place, and less than that where the result is the larger.
pub record IsNearest (int_part frac_part : Text) (dp : ℕ) (out : Text) : Type 0 where
  pub whole : Text
  pub fraction : Text
  pub printed : out ≡ whole ++ b'.' ∷ fraction
  pub whole_digits : AreDigits whole
  pub fraction_digits : AreDigits fraction
  pub places : length fraction ≡ dp
  pub not_below :
      2 * (value (int_part ++ frac_part) * place fraction)
      ≤ 2 * (value (whole ++ fraction) * place frac_part) + place frac_part
  pub not_above :
      2 * (value (whole ++ fraction) * place frac_part)
      < 2 * (value (int_part ++ frac_part) * place fraction) + place frac_part

module _ (int_part : Text) (int_digits : AreDigits int_part) where
  to_fixed_dp-IsNearest :
      (frac_part : Text) (dp : ℕ)
      → AreDigits frac_part
      → length frac_part ≤ dp
      → IsNearest int_part frac_part dp (to_fixed_dp int_part frac_part dp)
  unfolding to_fixed_dp
  to_fixed_dp-IsNearest frac_part dp digits fits =
      let zeros = replicate (dp - length frac_part) zero_digit in
      let padded : length (frac_part ++ zeros) ≡ dp = omega (
        arith,
        length-append frac_part zeros,
        length-replicate (dp - length frac_part) zero_digit,
      ) in
      let same : value (int_part ++ (frac_part ++ zeros)) * place frac_part
          ≡ value (int_part ++ frac_part) * place (frac_part ++ zeros) =
        simp (value-append, place-append)
          (omega
            (arith, ap (λ (z : ℕ). z * place frac_part) (value-zeros (dp - length frac_part)))) in
      record {
        whole = int_part;
        fraction = frac_part ++ zeros;
        printed = ap (λ f. int_part ++ b'.' ∷ f) (take_all dp (frac_part ++ zeros) padded);
        whole_digits = int_digits;
        fraction_digits =
            All-append IsDigit frac_part zeros digits (All-replicate IsDigit _ zero_digit refl);
        places = padded;
        not_below = omega (arith, same);
        not_above = omega (arith, same, place-pos frac_part);
      }

  module _ (keep rest : Text) (keep_digits : AreDigits keep) where
    kept-IsNearest :
        AreDigits rest
        → 2 * value rest ≤ place rest
        → IsNearest int_part (keep ++ rest) (length keep) (int_part ++ b'.' ∷ keep)
    kept-IsNearest rest_digits half =
        let scaled : 2 * value rest * place keep ≤ place rest * place keep =
          mul-le-mul half (Nat.le_refl (place keep)) in
        record {
          whole = int_part;
          fraction = keep;
          printed = refl;
          whole_digits = int_digits;
          fraction_digits = keep_digits;
          places = refl;
          not_below = simp (value-append, place-append) (omega (arith, scaled));
          not_above =
              simp (value-append, place-append)
                (omega (arith, mul-pos (place-pos keep) (place-pos rest)));
        }

  add_one-AreDigits :
      (keep : Text)
      → AreDigits keep
      → AreDigits (add_one int_part keep).int_str × AreDigits (add_one int_part keep).frac_str
  unfolding add_one
  add_one-AreDigits keep d = (whole (add_carry keep).1, add_carry-AreDigits keep d)
    where
      whole : (b : Bool) → AreDigits (if b then inc_int_string int_part else int_part)
      whole true = inc_int_string-AreDigits int_part int_digits
      whole false = int_digits

  length-add_one : (keep : Text) → length (add_one int_part keep).frac_str ≡ length keep
  unfolding add_one
  length-add_one keep = length-add_carry keep

  value-add_one :
      (keep : Text)
      → AreDigits keep
      → value ((add_one int_part keep).int_str ++ (add_one int_part keep).frac_str)
        ≡ value (int_part ++ keep) + 1
  unfolding add_one
  value-add_one keep d = elim (Bool-cases (add_carry keep).1) [
    | inl carry ↦
        rw (carry, value-append, value-append, value-inc_int_string int_part int_digits, same)
          (omega (arith, rw carry at (value-add_carry keep d)))
    | inr done ↦
        rw (done, value-append, value-append, same)
          (omega (arith, rw done at (value-add_carry keep d)))
  ]
    where
      same : place (add_carry keep).0 ≡ place keep
      same = place_congr (add_carry keep).0 keep (length-add_carry keep)

  raised-IsNearest :
      (keep rest : Text)
      → AreDigits keep
      → AreDigits rest
      → place rest < 2 * value rest
      → let up = add_one int_part keep in
        IsNearest int_part (keep ++ rest) (length keep) (up.int_str ++ b'.' ∷ up.frac_str)
  raised-IsNearest keep rest kd rd more =
      let up = add_one int_part keep in
      let digits = add_one-AreDigits keep kd in
      let same : place up.frac_str ≡ place keep = place_congr _ _ (length-add_one keep) in
      let raised = value-add_one keep kd in
      let scaled : place rest * place keep < 2 * value rest * place keep =
        mul-lt-mul_of_pos_right more (place-pos keep) in
      let below : value rest * place keep < place rest * place keep =
        mul-lt-mul_of_pos_right (value-lt-place rest rd) (place-pos keep) in
      record {
        whole = up.int_str;
        fraction = up.frac_str;
        printed = refl;
        whole_digits = digits.0;
        fraction_digits = digits.1;
        places = length-add_one keep;
        not_below =
            rw (same, raised) (simp (value-append, place-append) (omega (arith, scaled, below)));
        not_above =
            rw (same, raised) (simp (value-append, place-append) (omega (arith, scaled, below)));
      }

  to_fixed_dp_exact :
      (keep : Text) (dp : ℕ)
      → length keep ≡ dp
      → to_fixed_dp int_part keep dp ≡ int_part ++ b'.' ∷ keep
  unfolding to_fixed_dp
  to_fixed_dp_exact keep dp e =
      let none_left : dp - length keep ≡ 0 = omega arith in
      rw (none_left, append-nil keep, take_all dp keep e)

  pad_start_exact : (s : Text) (dp : ℕ) → length s ≡ dp → take dp (pad_start s dp) ≡ s
  pad_start_exact s dp e =
      let none_left : dp - length s ≡ 0 = omega arith in rw none_left (take_all dp s e)

  -- The branches of `roundHalfDownStr` for a fraction that is too long.
  cut-IsNearest :
      (keep rest : Text) (dp : ℕ)
      → length keep ≡ dp
      → 0 < dp
      → AreDigits keep
      → AreDigits rest
      → let up = add_one int_part keep in
        IsNearest int_part (keep ++ rest) dp (
          if is_tie rest
          then to_fixed_dp int_part keep dp
          else if not (should_up rest)
          then to_fixed_dp int_part keep dp
          else if ltb 0 dp
          then up.int_str ++ b'.' ∷ take dp (pad_start up.frac_str dp)
          else up.int_str)
  cut-IsNearest keep rest dp e pos kd rd =
      let kept = λ (h : 2 * value rest ≤ place rest). rw e at (kept-IsNearest keep rest kd rd h) in
      elim (Bool-cases (is_tie rest)) [
        | inl tie ↦
            rw (tie, to_fixed_dp_exact keep dp e) (kept (omega (arith, value_of_is_tie rest tie)))
        | inr no_tie ↦ elim (Bool-cases (should_up rest)) [
          | inl up ↦
              rw
                (
                  no_tie,
                  up,
                  lt→ltb 0 dp pos,
                  pad_start_exact (add_one int_part keep).frac_str dp (length-add_one keep ∙ e),
                )
                (rw e at (raised-IsNearest keep rest kd rd (value_of_should_up rest rd up)))
          | inr down ↦
              rw (no_tie, down, to_fixed_dp_exact keep dp e) (kept (value_of_not_up rest rd down))
        ]
      ]

  pub round_parts-IsNearest :
      (frac_part : Text) (dp : ℕ)
      → AreDigits frac_part
      → 0 < dp
      → IsNearest int_part frac_part dp (round_parts int_part frac_part dp)
  unfolding round_parts
  round_parts-IsNearest frac_part dp digits pos = elim (Bool-cases (leb (length frac_part) dp)) [
    | inl short ↦ rw short (to_fixed_dp-IsNearest frac_part dp digits (ground arith))
    | inr long ↦ rw long (
        rw (take-append-drop dp frac_part) at (
          cut-IsNearest (take dp frac_part) (drop dp frac_part) dp
            (omega (arith, length-take dp frac_part, leb-false _ _ long)) pos
            (All-take IsDigit dp frac_part digits) (All-drop IsDigit dp frac_part digits)))
  ]
