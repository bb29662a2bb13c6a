-- ===== src/Lslmsr/Bisect.antt =====
-- `bisect` of lslmsr.ts. The function that is searched may keep a state (the closure of
-- `payoutForSpend` writes into an array), which is passed on from call to call.
use seer.Common.{
  ℕ, zero, suc, ◌<◌, ◌≡◌, true, false, Option, none, some, arith, if◌then◌else◌, Bool-cases, inl,
  inr,
}
use seer.Numbers.{Numbers}

module _ (N : Numbers) where
  open N use {F, zero as nought, two, add, sub, div, gt}

  -- `none` means that the fuel ran out.
  unfoldable pub bisect : {S : Type 0} → ℕ → S → F → F → F → (S → F → F × S) → Option F
  bisect zero s lo hi tol f = none
  bisect (suc fuel) s lo hi tol f =
      let mid = div (add lo hi) two in
      let (value, s') = f s mid in
      let rest =
        bisect fuel s' (if gt value nought then lo else mid) (if gt value nought then mid else hi)
          tol f in
      if gt (sub hi lo) tol then rest else some lo

  -- Where halving makes progress: a range of intervals, and a bound on the halvings that an interval of
  -- the range needs.
  pub record Halving (tol : F) : Type 1 where
    pub InRange : F → F → Type 0
    pub steps : F → F → ℕ
    pub lower :
        (lo hi : F)
        → InRange lo hi
        → gt (sub hi lo) tol ≡ true
        → InRange lo (div (add lo hi) two) × (steps lo (div (add lo hi) two) < steps lo hi)
    pub upper :
        (lo hi : F)
        → InRange lo hi
        → gt (sub hi lo) tol ≡ true
        → InRange (div (add lo hi) two) hi × (steps (div (add lo hi) two) hi < steps lo hi)

  -- The result r of a search for the place where g becomes positive: g is not positive at r, and is
  -- positive at a point that is at most tol away.
  pub record Brackets (g : F → F) (tol r : F) : Type 0 where
    pub above : F
    pub at_result : gt (g r) nought ≡ false
    pub at_above : gt (g above) nought ≡ true
    pub near : gt (sub above r) tol ≡ false

  module _ {S : Type 0} (f : S → F → F × S) (g : F → F) (Inv : S → Type 0)
      (keeps : (s : S) (x : F) → Inv s → ((f s x).0 ≡ g x) × Inv (f s x).1) (tol : F)
      (h : Halving tol) where
    open h use {InRange, steps, lower, upper}

    -- With fuel for the halvings that the interval needs, the search ends with a bracket.
    pub bisect-Brackets :
        (fuel : ℕ) (s : S) (lo hi : F)
        → Inv s
        → InRange lo hi
        → steps lo hi < fuel
        → gt (g lo) nought ≡ false
        → gt (g hi) nought ≡ true
        → (r : F) × (bisect fuel s lo hi tol f ≡ some r) × Brackets g tol r
    unfolding bisect
    bisect-Brackets zero s lo hi i range fuel low high = absurd (omega arith)
    bisect-Brackets (suc fuel) s lo hi i range enough low high =
        elim (Bool-cases (gt (sub hi lo) tol)) [
          | inl wide ↦
              let mid = div (add lo hi) two in
              let (same, i') = keeps s mid i in
              elim (Bool-cases (gt (g mid) nought)) [
                | inl positive ↦
                    let (range', fewer) = lower lo hi range wide in
                    rw (wide, same, positive)
                      (bisect-Brackets fuel (f s mid).1 lo mid i' range' (omega arith) low positive)
                | inr not_positive ↦
                    let (range', fewer) = upper lo hi range wide in
                    rw (wide, same, not_positive)
                      (bisect-Brackets fuel (f s mid).1 mid hi i' range' (omega arith) not_positive
                        high)
              ]
          | inr narrow ↦ (
            lo,
            rw narrow,
            record { above = hi; at_result = low; at_above = high; near = narrow },
          )
        ]
