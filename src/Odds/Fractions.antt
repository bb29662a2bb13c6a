-- ===== src/Odds/Fractions.antt =====
-- `gcd` of frontend/seer/src/lib/lslmsr/math_util.ts, and the fractional odds that lib/odds.ts and
-- ui/odds/AnimatedOdds.tsx make with it.
use Prim.Native.String.{◌++◌}
use Prim.Native.Nat.{◌∣◌}
use native.Mathlib.Nat
use seer.Common.{
  ℕ, zero, suc, ◌*◌, ◌/◌, ◌%◌, ◌<◌, ◌==◌, ◌≡◌, refl, sym, ap, ◌∙◌, subst, false, arith,
}
use seer.Common.Result.{ok}
use seer.Odds.Decimals.{Decimals, AreExact}
use seer.Odds.Formats.{fractional}
use seer.Odds.Widgets.{gcd, hundredths, format_odds, to_fraction}

-- g is the greatest common divisor of a and b.
pub record IsGcd (g a b : ℕ) : Type 0 where
  pub dvd_left : g ∣ a
  pub dvd_right : g ∣ b
  pub greatest : (k : ℕ) → k ∣ a → k ∣ b → k ∣ g

suc_ne_zero : (c : ℕ) → (suc c == 0) ≡ false
suc_ne_zero c = ground arith

IsGcd-mod : (g a c : ℕ) → IsGcd g (suc c) (a % suc c) → IsGcd g a (suc c)
IsGcd-mod g a c h = record {
  dvd_left = (Nat.dvd-mod_iff g h.dvd_left).0 h.dvd_right;
  dvd_right = h.dvd_left;
  greatest = λ k left right. h.greatest k right ((Nat.dvd-mod_iff k right).1 left);
}

-- n over d is a over b in lowest terms.
pub record IsLowest (a b n d : ℕ) : Type 0 where
  pub cross : n * b ≡ a * d
  pub coprime : (k : ℕ) → k ∣ n → k ∣ d → k ≡ 1

cross_mul : (n d g : ℕ) {a b : ℕ} → n * g ≡ a → d * g ≡ b → n * b ≡ a * d
cross_mul n d g e f = rw (← e, ← f, Nat.mul_assoc n g d, Nat.mul_comm g d)

IsGcd-IsLowest : (g a b : ℕ) → 0 < b → IsGcd g a b → IsLowest a b (a / g) (b / g)
IsGcd-IsLowest g a b pos_b h = record {
  cross =
      cross_mul (a / g) (b / g) g (Nat.div-mul_cancel g h.dvd_left)
        (Nat.div-mul_cancel g h.dvd_right);
  coprime = λ k left right. Nat.eq-one_of_dvd-one (
      Nat.dvd_of_mul-dvd-mul_right k (Nat.pos_of_dvd_of_pos h.dvd_right pos_b) (
        rw Nat.one-mul
          (h.greatest (k * g) (scaled k a h.dvd_left left) (scaled k b h.dvd_right right))));
}
  where
    scaled : (k m : ℕ) → g ∣ m → k ∣ m / g → k * g ∣ m
    scaled k m hg hk = subst (◌∣◌ (k * g)) (Nat.div-mul_cancel g hg) (Nat.mul-dvd-mul_right k hk g)

module _ (E : Decimals) {limit : ℕ} (exact : AreExact E limit) where
  open E use {
    D, of_nat, div, abs, modulo, equals, less_than_or_equal_to, N, to_number, n_zero, n_one,
    number_text,
  }
  open exact use {equals-of_nat, abs-of_nat, modulo-of_nat, div-of_nat}

  -- On whole numbers the recursion ends, with fuel above its second argument, in their greatest common divisor.
  pub gcd-of_nat :
      (fuel a b : ℕ)
      → b < fuel
      → a < limit
      → b < limit
      → (g : ℕ) × (gcd E fuel (of_nat a) (of_nat b) ≡ ok (of_nat g)) × IsGcd g a b
  unfolding gcd
  gcd-of_nat zero a b enough left right = absurd (omega arith)
  gcd-of_nat (suc fuel) a zero enough left right = (
    a,
    rw (equals-of_nat 0) refl,
    record { dvd_left = Nat.dvd_refl a; dvd_right = Nat.dvd-zero a; greatest = λ k l r. l },
  )
  gcd-of_nat (suc fuel) a (suc c) enough left right =
      let (g, found, is_gcd) =
        gcd-of_nat fuel (suc c) (a % suc c) (omega arith) right (omega arith) in
      (
        g,
        rw (equals-of_nat (suc c) ∙ suc_ne_zero c, modulo-of_nat a (suc c) left (omega arith))
            found,
        IsGcd-mod g a c is_gcd,
      )

  div-of_dvd : (g a : ℕ) → 0 < g → a < limit → g ∣ a → div (of_nat a) (of_nat g) ≡ of_nat (a / g)
  div-of_dvd g a pos_g small h =
      ap (λ m. div (of_nat m) (of_nat g)) (sym (Nat.div-mul_cancel g h))
      ∙ div-of_nat (a / g) g (subst (λ m. m < limit) (sym (Nat.div-mul_cancel g h)) small) pos_g

  -- Let (1/p - 1) * 100 round to the whole number a, below the limit of what is exact. Then both ways of
  -- showing fractional odds return, with any fuel above 100, the fraction a/100 in lowest terms.
  pub fractional-IsLowest :
      (fuel a : ℕ) (p : D)
      → 100 < fuel
      → 100 < limit
      → a < limit
      → hundredths E p ≡ of_nat a
      → less_than_or_equal_to p (of_nat 0) ≡ false
      → (n : ℕ) × (d : ℕ) × (to_fraction E fuel p ≡ ok (to_number (of_nat n), to_number (of_nat d)))
        × (format_odds E fuel p fractional
            ≡ ok (number_text (to_number (of_nat n)) ++ "/" ++ number_text (to_number (of_nat d))))
        × IsLowest a 100 n d
  unfolding to_fraction format_odds
  fractional-IsLowest fuel a p enough hundred small whole positive =
      let (g, found, is_gcd) = gcd-of_nat fuel a 100 enough small hundred in
      let pos_g = Nat.pos_of_dvd_of_pos is_gcd.dvd_right (omega arith) in
      let num = div-of_dvd g a pos_g small is_gcd.dvd_left in
      let den = div-of_dvd g 100 pos_g hundred is_gcd.dvd_right in
      (
        a / g,
        100 / g,
        rw (positive, whole, abs-of_nat a, found, abs-of_nat g, num, den) refl,
        rw (whole, abs-of_nat a, found, abs-of_nat g, num, den) refl,
        IsGcd-IsLowest g a 100 (omega arith) is_gcd,
      )
