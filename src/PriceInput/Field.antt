-- ===== src/PriceInput/Field.antt =====
-- `onChange` and `commitRound` of PriceInput.tsx: what the field shows and what it hands on.
use seer.Common.{
  ℕ, ◌+◌, ◌*◌, ◌≤◌, ◌<◌, ◌≡◌, ◌≢◌, refl, ap, ◌⊎◌, inl, inr, true, false, [], ◌∷◌, ◌++◌, arith,
  Bool-cases, ◌==◌,
}
use native.Mathlib.Nat.{lt_of_mul-lt-mul_right}
use seer.PriceInput.{
  Text, is_digit, is_separator, sanitize_from, round_half_down_str, before_dot, after_dot, or_zero,
  comma_to_dot,
}
use seer.PriceInput.Digits.{IsDigit, AreDigits, value, place}
use seer.PriceInput.Rounding.{IsNearest, round_parts-IsNearest}

-- Digits, with at most one separator, a dot or a comma.
abbrev pub IsEditable : Text → Type 0
IsEditable [] = Unit
IsEditable (c ∷ s) = (IsDigit c × IsEditable s) ⊎ ((is_separator c ≡ true) × AreDigits s)

sanitize_from-AreDigits : (raw : Text) → AreDigits (sanitize_from true raw)
unfolding sanitize_from
sanitize_from-AreDigits [] = tt
sanitize_from-AreDigits (c ∷ raw) = ground (arith, sanitize_from-AreDigits raw)

pub sanitize_from-IsEditable : (raw : Text) → IsEditable (sanitize_from false raw)
unfolding sanitize_from
sanitize_from-IsEditable [] = tt
sanitize_from-IsEditable (c ∷ raw) = elim (Bool-cases (is_digit c)) [
  | inl d ↦ rw d (inl (d, sanitize_from-IsEditable raw))
  | inr nd ↦ elim (Bool-cases (is_separator c)) [
    | inl sep ↦ rw (nd, sep) (inr (sep, sanitize_from-AreDigits raw))
    | inr other ↦ rw (nd, other) (sanitize_from-IsEditable raw)
  ]
]

-- Text that is already editable is left as it stands.
sanitize_from_digits : (s : Text) → AreDigits s → sanitize_from true s ≡ s
unfolding sanitize_from
sanitize_from_digits [] h = refl
sanitize_from_digits (c ∷ s) (d, h) = rw d (ap (λ t. c ∷ t) (sanitize_from_digits s h))

separator_not_digit : (c : ℕ) → is_separator c ≡ true → is_digit c ≡ false
separator_not_digit c h = ground arith

pub sanitize_from_editable : (s : Text) → IsEditable s → sanitize_from false s ≡ s
unfolding sanitize_from
sanitize_from_editable [] h = refl
sanitize_from_editable (c ∷ s) (inl (d, h)) = rw d (ap (λ t. c ∷ t) (sanitize_from_editable s h))
sanitize_from_editable (c ∷ s) (inr (sep, h)) =
    rw (separator_not_digit c sep, sep) (ap (λ t. c ∷ t) (sanitize_from_digits s h))

-- A normalized text: digits, with at most one dot.
abbrev pub IsNumeral : Text → Type 0
IsNumeral [] = Unit
IsNumeral (c ∷ s) = (IsDigit c × IsNumeral s) ⊎ ((c ≡ b'.') × AreDigits s)

pub digits-IsNumeral : (s : Text) → AreDigits s → IsNumeral s
digits-IsNumeral [] h = tt
digits-IsNumeral (c ∷ s) (d, h) = inl (d, digits-IsNumeral s h)

comma_to_dot_digits : (s : Text) → AreDigits s → comma_to_dot s ≡ s
unfolding comma_to_dot
comma_to_dot_digits [] h = refl
comma_to_dot_digits (c ∷ s) (d, h) =
    let not_comma : (c == b',') ≡ false = ground arith in
    rw not_comma (ap (λ t. c ∷ t) (comma_to_dot_digits s h))

pub comma_to_dot-IsNumeral : (s : Text) → IsEditable s → IsNumeral (comma_to_dot s)
unfolding comma_to_dot
comma_to_dot-IsNumeral [] h = tt
comma_to_dot-IsNumeral (c ∷ s) (inl (d, h)) =
    let not_comma : (c == b',') ≡ false = ground arith in
    rw not_comma (inl (d, comma_to_dot-IsNumeral s h))
comma_to_dot-IsNumeral (c ∷ s) (inr (sep, h)) = elim (Bool-cases (c == b',')) [
  | inl comma ↦ rw comma (inr (refl, h))
  | inr no_comma ↦ rw (no_comma, comma_to_dot_digits s h) (inr (ground arith, h))
]

digit_not_dot : (c : ℕ) → IsDigit c → (c == b'.') ≡ false
digit_not_dot c d = ground arith

pub before_dot-AreDigits : (s : Text) → IsNumeral s → AreDigits (before_dot s)
unfolding before_dot
before_dot-AreDigits [] h = tt
before_dot-AreDigits (c ∷ s) (inl (d, h)) = rw (digit_not_dot c d) (d, before_dot-AreDigits s h)
before_dot-AreDigits (c ∷ s) (inr (e, h)) = rw e tt

pub before_dot_digits : (s : Text) → AreDigits s → before_dot s ≡ s
unfolding before_dot
before_dot_digits [] h = refl
before_dot_digits (c ∷ s) (d, h) = rw (digit_not_dot c d) (ap (λ t. c ∷ t) (before_dot_digits s h))

pub after_dot-AreDigits : (s : Text) → IsNumeral s → AreDigits (after_dot s)
unfolding after_dot
after_dot-AreDigits [] h = tt
after_dot-AreDigits (c ∷ s) (inl (d, h)) = rw (digit_not_dot c d) (after_dot-AreDigits s h)
after_dot-AreDigits (c ∷ s) (inr (e, h)) = rw (e, before_dot_digits s h) h

pub or_zero-AreDigits : (s : Text) → AreDigits s → AreDigits (or_zero s)
or_zero-AreDigits [] h = (refl, tt)
or_zero-AreDigits (c ∷ s) h = h

-- `roundHalfDownStr` on a numeral prints the nearest number with dp decimals.
pub round_half_down_str-IsNearest :
    (s : Text) (dp : ℕ)
    → s ≢ []
    → IsNumeral s
    → 0 < dp
    → IsNearest (or_zero (before_dot s)) (after_dot s) dp (round_half_down_str s dp)
unfolding round_half_down_str
round_half_down_str-IsNearest [] dp ne h pos = absurd (ne refl)
round_half_down_str-IsNearest (c ∷ s) dp ne h pos =
    round_parts-IsNearest (or_zero (before_dot (c ∷ s)))
      (or_zero-AreDigits (before_dot (c ∷ s)) (before_dot-AreDigits (c ∷ s) h)) (after_dot (c ∷ s))
      dp (after_dot-AreDigits (c ∷ s) h) pos

-- The number that a printed text stands for, in units of its last decimal.
pub amount : Text → ℕ
unfolding before_dot after_dot
amount s = value (before_dot s ++ after_dot s)

pub before_dot-append :
    (whole fraction : Text) → AreDigits whole → before_dot (whole ++ b'.' ∷ fraction) ≡ whole
unfolding before_dot
before_dot-append [] fraction h = refl
before_dot-append (c ∷ whole) fraction (d, h) =
    rw (digit_not_dot c d) (ap (λ t. c ∷ t) (before_dot-append whole fraction h))

pub after_dot-append :
    (whole fraction : Text)
    → AreDigits whole
    → AreDigits fraction
    → after_dot (whole ++ b'.' ∷ fraction) ≡ fraction
unfolding after_dot
after_dot-append [] fraction h k = before_dot_digits fraction k
after_dot-append (c ∷ whole) fraction (d, h) k =
    rw (digit_not_dot c d) (after_dot-append whole fraction h k)

pub after_dot_digits : (s : Text) → AreDigits s → after_dot s ≡ []
unfolding after_dot
after_dot_digits [] h = refl
after_dot_digits (c ∷ s) (d, h) = rw (digit_not_dot c d) (after_dot_digits s h)

pub amount_of_IsNearest :
    {i f : Text} {dp : ℕ} {out : Text} (n : IsNearest i f dp out)
    → amount out ≡ value (n.whole ++ n.fraction)
unfolding amount
amount_of_IsNearest n = rw (
  n.printed,
  before_dot-append n.whole n.fraction n.whole_digits,
  after_dot-append n.whole n.fraction n.whole_digits n.fraction_digits,
)

-- Only one number is the nearest.
pub nearest_le :
    (f : Text) (p q N M K : ℕ)
    → 2 * (M * place f) < 2 * (N * p) + place f
    → p ≡ q
    → 2 * (N * q) ≤ 2 * (K * place f) + place f
    → M ≤ K
nearest_le f p q N M K above e below =
    let same : N * p ≡ N * q = ap (λ (x : ℕ). N * x) e in
    let bound : M * place f < (K + 1) * place f = omega arith in
    let less : M < K + 1 = lt_of_mul-lt-mul_right (place f) bound in omega arith
