-- ===== src/Lslmsr/Shares.antt =====
-- The share vectors of lslmsr.ts: which entries a bet and a hedge change, and the array that the
-- closure of `payoutForSpend` writes over and over.
use seer.Common.{
  ℕ, zero, suc, ◌<◌, ◌≡◌, refl, ap, Option, none, some, List, [], ◌∷◌, map, arith, length,
}
use seer.Definitions.{BetSide, y, n}
use seer.Numbers.{Numbers}

module _ (N : Numbers) where
  open N use {F, add}

  -- `q[idx] += delta`
  unfoldable pub shift_one : List F → ℕ → F → List F
  shift_one [] idx delta = []
  shift_one (x ∷ q) zero delta = add x delta ∷ q
  shift_one (x ∷ q) (suc idx) delta = x ∷ shift_one q idx delta

  abbrev pub shift_all : List F → F → List F
  shift_all q delta = map (λ x. add x delta) q

  -- `for (i …) { if (i == idx) continue; q[i] = q[i] + delta }`
  unfoldable pub shift_others : List F → ℕ → F → List F
  shift_others [] idx delta = []
  shift_others (x ∷ q) zero delta = x ∷ shift_all q delta
  shift_others (x ∷ q) (suc idx) delta = add x delta ∷ shift_others q idx delta

  -- The shares after a bet of `delta` shares on a side of the outcome at `idx`.
  unfoldable pub after_bet : BetSide → List F → ℕ → F → List F
  unfolding shift_one shift_others
  after_bet y q idx delta = shift_one q idx delta
  after_bet n q idx delta = shift_others q idx delta

  -- The shares after the hedge of a bet, as the cash-out computes them. `findIndex` gives -1 (`none`)
  -- for an outcome that the market does not have: then no index is skipped, and `q[-1] += …` leaves
  -- the elements of the array alone.
  unfoldable pub hedge : BetSide → List F → Option ℕ → F → List F
  unfolding shift_one shift_others
  hedge y q none delta = shift_all q delta
  hedge y q (some idx) delta = shift_others q idx delta
  hedge n q none delta = q
  hedge n q (some idx) delta = shift_one q idx delta

  -- `qNext[idx] = q[idx] + delta`
  write_one : List F → List F → ℕ → F → List F
  write_one (x ∷ q) (k ∷ next) zero delta = add x delta ∷ next
  write_one (x ∷ q) (k ∷ next) (suc idx) delta = k ∷ write_one q next idx delta
  write_one q next idx delta = next

  write_all : List F → List F → F → List F
  write_all (x ∷ q) (k ∷ next) delta = add x delta ∷ write_all q next delta
  write_all q next delta = next

  -- `for (i …) { if (i == idx) continue; qNext[i] = q[i] + delta }`
  write_others : List F → List F → ℕ → F → List F
  write_others (x ∷ q) (k ∷ next) zero delta = k ∷ write_all q next delta
  write_others (x ∷ q) (k ∷ next) (suc idx) delta = add x delta ∷ write_others q next idx delta
  write_others q next idx delta = next

  unfoldable pub write : BetSide → List F → List F → ℕ → F → List F
  unfolding write_one write_all write_others
  write y q next idx delta = write_one q next idx delta
  write n q next idx delta = write_others q next idx delta

  write_all_self : (q : List F) (delta : F) → write_all q q delta ≡ shift_all q delta
  unfolding write_all
  write_all_self [] delta = refl
  write_all_self (x ∷ q) delta = ap (λ l. add x delta ∷ l) (write_all_self q delta)

  write_one_self :
      (q : List F) (idx : ℕ) (delta : F) → write_one q q idx delta ≡ shift_one q idx delta
  unfolding write_one shift_one
  write_one_self [] idx delta = refl
  write_one_self (x ∷ q) zero delta = refl
  write_one_self (x ∷ q) (suc idx) delta = ap (λ l. x ∷ l) (write_one_self q idx delta)

  write_others_self :
      (q : List F) (idx : ℕ) (delta : F) → write_others q q idx delta ≡ shift_others q idx delta
  unfolding write_others shift_others
  write_others_self [] idx delta = refl
  write_others_self (x ∷ q) zero delta = ap (λ l. x ∷ l) (write_all_self q delta)
  write_others_self (x ∷ q) (suc idx) delta =
      ap (λ l. add x delta ∷ l) (write_others_self q idx delta)

  -- On a copy of q the write gives the shares after the bet.
  pub write_self :
      (side : BetSide) (q : List F) (idx : ℕ) (delta : F)
      → write side q q idx delta ≡ after_bet side q idx delta
  unfolding write after_bet
  write_self y q idx delta = write_one_self q idx delta
  write_self n q idx delta = write_others_self q idx delta

  write_all_twice :
      (q next : List F) (d e : F) → write_all q (write_all q next d) e ≡ write_all q next e
  unfolding write_all
  write_all_twice [] next d e = refl
  write_all_twice (x ∷ q) [] d e = refl
  write_all_twice (x ∷ q) (k ∷ next) d e = ap (λ l. add x e ∷ l) (write_all_twice q next d e)

  write_one_twice :
      (q next : List F) (idx : ℕ) (d e : F)
      → write_one q (write_one q next idx d) idx e ≡ write_one q next idx e
  unfolding write_one
  write_one_twice [] next idx d e = refl
  write_one_twice (x ∷ q) [] idx d e = refl
  write_one_twice (x ∷ q) (k ∷ next) zero d e = refl
  write_one_twice (x ∷ q) (k ∷ next) (suc idx) d e =
      ap (λ l. k ∷ l) (write_one_twice q next idx d e)

  write_others_twice :
      (q next : List F) (idx : ℕ) (d e : F)
      → write_others q (write_others q next idx d) idx e ≡ write_others q next idx e
  unfolding write_others
  write_others_twice [] next idx d e = refl
  write_others_twice (x ∷ q) [] idx d e = refl
  write_others_twice (x ∷ q) (k ∷ next) zero d e = ap (λ l. k ∷ l) (write_all_twice q next d e)
  write_others_twice (x ∷ q) (k ∷ next) (suc idx) d e =
      ap (λ l. add x e ∷ l) (write_others_twice q next idx d e)

  -- What an earlier write left does not show after the next one.
  pub write_twice :
      (side : BetSide) (q next : List F) (idx : ℕ) (d e : F)
      → write side q (write side q next idx d) idx e ≡ write side q next idx e
  unfolding write
  write_twice y q next idx d e = write_one_twice q next idx d e
  write_twice n q next idx d e = write_others_twice q next idx d e

  shift_others-shift_one :
      (q : List F) (idx : ℕ) (s : F)
      → idx < length q
      → shift_others (shift_one q idx s) idx s ≡ shift_all q s
  unfolding shift_others shift_one
  shift_others-shift_one [] idx s h = elim h [ ]
  shift_others-shift_one (x ∷ q) zero s h = refl
  shift_others-shift_one (x ∷ q) (suc idx) s h =
      ap (λ l. add x s ∷ l) (shift_others-shift_one q idx s (omega arith))

  shift_one-shift_others :
      (q : List F) (idx : ℕ) (s : F)
      → idx < length q
      → shift_one (shift_others q idx s) idx s ≡ shift_all q s
  unfolding shift_others shift_one
  shift_one-shift_others [] idx s h = elim h [ ]
  shift_one-shift_others (x ∷ q) zero s h = refl
  shift_one-shift_others (x ∷ q) (suc idx) s h =
      ap (λ l. add x s ∷ l) (shift_one-shift_others q idx s (omega arith))

  -- The hedge of a bet on either side of an outcome of the market makes the position riskless: after
  -- the bet and the hedge of all its shares every outcome has that many shares more.
  pub hedge-after_bet :
      (side : BetSide) (q : List F) (idx : ℕ) (s : F)
      → idx < length q
      → hedge side (after_bet side q idx s) (some idx) s ≡ shift_all q s
  unfolding hedge after_bet
  hedge-after_bet y q idx s h = shift_others-shift_one q idx s h
  hedge-after_bet n q idx s h = shift_one-shift_others q idx s h
