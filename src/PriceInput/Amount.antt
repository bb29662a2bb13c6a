-- ===== src/PriceInput/Amount.antt =====
-- The stake field of PriceInput.tsx as a whole: the text shown, the amount handed on and the text
-- after the field loses the focus.
use seer.Common.{
  ℕ, ◌+◌, ◌*◌, ◌≤◌, ◌<◌, ◌≡◌, ◌≢◌, refl, sym, ap, ◌∙◌, subst, inl, inr, false, some, [], ◌∷◌, ◌++◌,
  arith, Bool-cases, ◌==◌,
}
use mathlib.Core.Path.{subst₂}
use mathlib.Core.Option.{some-injective}
use seer.PriceInput.{
  Text, sanitize_from, sanitize_for_editing, round_half_down_str, before_dot, after_dot, or_zero,
  comma_to_dot, strip_zeros, join_dot, emitted, on_change, commit_round,
}
use seer.PriceInput.Digits.{AreDigits, value, value-append, place, place_congr}
use seer.PriceInput.Rounding.{IsNearest}
use seer.PriceInput.Field.{
  IsEditable, IsNumeral, sanitize_from-IsEditable, sanitize_from_editable, comma_to_dot-IsNumeral,
  before_dot-AreDigits, after_dot-AreDigits, before_dot_digits, after_dot_digits, before_dot-append,
  after_dot-append, digits-IsNumeral, or_zero-AreDigits, round_half_down_str-IsNearest, amount,
  amount_of_IsNearest, nearest_le,
}

-- Whatever is typed, the field shows digits with at most one separator, and showing it once more
-- changes nothing.
pub sanitize_for_editing-IsEditable :
    (raw : Text)
    → IsEditable (sanitize_for_editing raw)
      × (sanitize_for_editing (sanitize_for_editing raw) ≡ sanitize_for_editing raw)
unfolding sanitize_for_editing
sanitize_for_editing-IsEditable raw =
    (sanitize_from-IsEditable raw, sanitize_from_editable _ (sanitize_from-IsEditable raw))

-- The integer and fraction digits of the text that the field shows.
abbrev pub shown_int : Text → Text
shown_int next = or_zero (before_dot (comma_to_dot next))

abbrev pub shown_frac : Text → Text
shown_frac next = after_dot (comma_to_dot next)

comma_to_dot-ne-nil : (c : ℕ) (s : Text) → comma_to_dot (c ∷ s) ≢ []
unfolding comma_to_dot
comma_to_dot-ne-nil c s = ground arith

emitted-IsNearest :
    (dp : ℕ) (next : Text) {v : Text}
    → 0 < dp
    → IsEditable next
    → emitted dp next ≡ some v
    → IsNearest (shown_int next) (shown_frac next) dp v
unfolding emitted
emitted-IsNearest dp [] pos h e = cc
emitted-IsNearest dp (c ∷ s) pos h e =
    let same = some-injective _ _ e in
    subst (IsNearest (shown_int (c ∷ s)) (shown_frac (c ∷ s)) dp) same (
      round_half_down_str-IsNearest (comma_to_dot (c ∷ s)) dp (comma_to_dot-ne-nil c s)
        (comma_to_dot-IsNumeral (c ∷ s) h) pos)

emitted_total : (dp : ℕ) (next : Text) → next ≢ [] → (v : Text) × (emitted dp next ≡ some v)
unfolding emitted
emitted_total dp [] ne = absurd (ne refl)
emitted_total dp (c ∷ s) ne = (round_half_down_str (comma_to_dot (c ∷ s)) dp, refl)

-- Unless nothing of what is typed is a digit or a separator, the field hands on an amount: the number
-- that it shows, rounded to the nearest with dp decimals, where dp is not 0, and a tie down.
pub on_change-IsNearest :
    (dp : ℕ) (raw : Text)
    → 0 < dp
    → (on_change dp raw).0 ≢ []
    → let next = (on_change dp raw).0 in
      (v : Text) × ((on_change dp raw).1 ≡ some v)
      × IsNearest (shown_int next) (shown_frac next) dp v
unfolding on_change sanitize_for_editing
on_change-IsNearest dp raw pos ne =
    let next = sanitize_from false raw in
    let (v, e) = emitted_total dp next ne in
    (v, e, emitted-IsNearest dp next pos (sanitize_from-IsEditable raw) e)

value-strip_zeros : (s : Text) → value (strip_zeros s) ≡ value s
unfolding strip_zeros
value-strip_zeros [] = refl
value-strip_zeros (c ∷ s) = elim (Bool-cases (c == b'0')) [
  | inl zero' ↦
      let e : c ≡ 48 = ground arith in rw zero' (rw e (omega (arith, value-strip_zeros s)))
  | inr other ↦ rw other
]

value-or_zero : (s : Text) → value (or_zero s) ≡ value s
value-or_zero [] = refl
value-or_zero (c ∷ s) = refl

strip_zeros-AreDigits : (s : Text) → AreDigits s → AreDigits (strip_zeros s)
unfolding strip_zeros
strip_zeros-AreDigits [] h = tt
strip_zeros-AreDigits (c ∷ s) (d, h) = ground (arith, strip_zeros-AreDigits s h)

join_dot-IsNumeral : (i f : Text) → AreDigits i → AreDigits f → IsNumeral (join_dot i f)
join_dot-IsNumeral i [] h k = digits-IsNumeral i h
join_dot-IsNumeral [] (c ∷ f) h k = inr (refl, k)
join_dot-IsNumeral (d ∷ i) (c ∷ f) (hd, h) k = inl (hd, join_dot-IsNumeral i (c ∷ f) h k)

before_dot-join_dot : (i f : Text) → AreDigits i → before_dot (join_dot i f) ≡ i
before_dot-join_dot i [] h = before_dot_digits i h
before_dot-join_dot i (c ∷ f) h = before_dot-append i (c ∷ f) h

after_dot-join_dot : (i f : Text) → AreDigits i → AreDigits f → after_dot (join_dot i f) ≡ f
after_dot-join_dot i [] h k = after_dot_digits i h
after_dot-join_dot i (c ∷ f) h k = after_dot-append i (c ∷ f) h k

join_dot-ne-nil : (i f : Text) → i ≢ [] → join_dot i f ≢ []
join_dot-ne-nil [] f ne = absurd (ne refl)
join_dot-ne-nil (c ∷ i) [] ne = cc
join_dot-ne-nil (c ∷ i) (d ∷ f) ne = cc

or_zero-ne-nil : (s : Text) → or_zero s ≢ []
or_zero-ne-nil [] = cc
or_zero-ne-nil (c ∷ s) = cc

or_zero_twice : (s : Text) → or_zero (or_zero s) ≡ or_zero s
or_zero_twice [] = refl
or_zero_twice (c ∷ s) = refl

-- The text that `commitRound` rounds, and what it is rounded to.
commit_round-IsNearest :
    (dp : ℕ) (c : ℕ) (s : Text)
    → 0 < dp
    → IsEditable (c ∷ s)
    → IsNearest
        (or_zero (strip_zeros (before_dot (comma_to_dot (c ∷ s)))))
        (shown_frac (c ∷ s))
        dp
        (commit_round dp (c ∷ s))
unfolding commit_round
commit_round-IsNearest dp c s pos h =
    let n = comma_to_dot (c ∷ s) in
    let numeral = comma_to_dot-IsNumeral (c ∷ s) h in
    let i = or_zero (strip_zeros (before_dot n)) in
    let f = after_dot n in
    let di : AreDigits i =
      or_zero-AreDigits (strip_zeros (before_dot n))
        (strip_zeros-AreDigits (before_dot n) (before_dot-AreDigits n numeral)) in
    let df : AreDigits f = after_dot-AreDigits n numeral in
    let near =
      round_half_down_str-IsNearest (join_dot i f) dp
        (join_dot-ne-nil i f (or_zero-ne-nil (strip_zeros (before_dot n))))
        (join_dot-IsNumeral i f di df) pos in
    let int_same : or_zero (before_dot (join_dot i f)) ≡ i =
      ap or_zero (before_dot-join_dot i f di) ∙ or_zero_twice (strip_zeros (before_dot n)) in
    subst₂ (λ x y. IsNearest x y dp (round_half_down_str (join_dot i f) dp)) int_same
      (after_dot-join_dot i f di df) near

value_shown : (s f : Text) → value (or_zero (strip_zeros s) ++ f) ≡ value (or_zero s ++ f)
value_shown s f =
    rw (value-append (or_zero (strip_zeros s)) f, value-append (or_zero s) f)
      (ap (λ (x : ℕ). x * place f + value f)
        (value-or_zero (strip_zeros s) ∙ value-strip_zeros s ∙ sym (value-or_zero s)))

nearest_amounts :
    {i i' f : Text} {dp : ℕ} {a b : Text}
    → value (i ++ f) ≡ value (i' ++ f)
    → IsNearest i f dp a
    → IsNearest i' f dp b
    → amount a ≤ amount b
nearest_amounts {f} e m n =
    let p = place_congr m.fraction n.fraction (m.places ∙ sym n.places) in
    rw (amount_of_IsNearest m, amount_of_IsNearest n)
      (nearest_le f _ _ _ _ _ (rw e at m.not_above) p n.not_below)

emitted-commit_round :
    (dp : ℕ) (next : Text) {v : Text}
    → 0 < dp
    → IsEditable next
    → emitted dp next ≡ some v
    → amount (commit_round dp next) ≡ amount v
emitted-commit_round dp [] pos h e = unfold emitted in cc
emitted-commit_round dp (c ∷ s) pos h e =
    let shown = emitted-IsNearest dp (c ∷ s) pos h e in
    let blurred = commit_round-IsNearest dp c s pos h in
    let same = value_shown (before_dot (comma_to_dot (c ∷ s))) (shown_frac (c ∷ s)) in
    omega (arith, nearest_amounts same blurred shown, nearest_amounts (sym same) shown blurred)

-- Where typing handed an amount on, the field shows that same amount after it loses the focus (dp,
-- the number of decimals, is not 0).
pub on_change-commit_round :
    (dp : ℕ) (raw : Text) {v : Text}
    → 0 < dp
    → (on_change dp raw).1 ≡ some v
    → amount (commit_round dp (on_change dp raw).0) ≡ amount v
unfolding on_change sanitize_for_editing
on_change-commit_round dp raw pos e =
    emitted-commit_round dp (sanitize_from false raw) pos (sanitize_from-IsEditable raw) e
