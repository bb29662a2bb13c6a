-- ===== src/Lslmsr/SpendQuote.antt =====
-- `payoutForSpend` and `possiblePayoutProbForSpend` of lslmsr.ts: the shares that a bet is quoted.
use seer.Common.{
  ℕ, zero, suc, ◌<◌, ◌≡◌, ◌≢◌, refl, ap, ◌∙◌, Bool, true, false, some, List, [], ◌∷◌, map, All,
  Bool-cases, inl, inr,
}
use seer.Common.Int.{ℤ}
use seer.Common.Result.{ok}
use seer.Definitions.{Outcome, MarketView, BetSide, y, n}
use seer.Numbers.{Numbers, round_up, round_down}
use seer.Lslmsr.Bisect.{Halving, Brackets, bisect-Brackets}
use seer.Lslmsr.Shares.{after_bet, write, write_self, write_twice}
use seer.Lslmsr.Prices.{cost, prices}
use seer.Lslmsr.MarketPrices.{prices_total}
use seer.Lslmsr.Quotes.{
  spend_gap, most_shares, payout_for_spend, find_index, numbers, over_cap, spend_quote,
  possible_payout_prob_for_spend, truncate_precision, gain_proportion,
}

module _ (N : Numbers) where
  open N use {
    F, zero as nought, thousandth, sub, gt, D, d_zero, of_number, to_number, over,
    to_decimal_places,
  }

  -- What `delta` shares cost beyond the money that is spent.
  unfoldable pub gap : BetSide → List F → ℕ → F → F → F → F
  gap side q idx alpha spend delta =
      sub (sub (cost N (after_bet N side q idx delta) alpha) (cost N q alpha)) spend

  -- The array of the closure: the next write into it gives the shares after the bet.
  IsFresh : BetSide → List F → ℕ → List F → Type 0
  IsFresh side q idx next =
      (delta : F) → write N side q next idx delta ≡ after_bet N side q idx delta

  spend_gap-gap :
      (side : BetSide) (q : List F) (idx : ℕ) (alpha spend : F) (next : List F) (delta : F)
      → IsFresh side q idx next
      → let step = spend_gap N side q idx alpha (cost N q alpha) spend next delta in
        (step.0 ≡ gap side q idx alpha spend delta) × IsFresh side q idx step.1
  unfolding spend_gap gap IsFresh
  spend_gap-gap side q idx alpha spend next delta fresh = (
    ap (λ l. sub (sub (cost N l alpha) (cost N q alpha)) spend) (fresh delta),
    λ e. write_twice N side q next idx delta e ∙ fresh e,
  )

  module _ (h : Halving N thousandth) where
    open h use {InRange, steps}

    -- Let the search range of `payoutForSpend` be one on which halving makes progress, the fuel be more
    -- than the halvings that it needs, and the money buy at least as many shares as it has units but
    -- not the number at the upper end. Then a payout is returned: that many shares do not cost more
    -- than the money, and a number of shares that do is at most a thousandth away.
    pub payout_for_spend-Brackets :
        (fuel : ℕ) (q : List F) (idx : ℕ) (alpha spend : F) (side : BetSide) (ps : List F)
        → prices N q alpha ≡ ok ps
        → InRange spend (most_shares N side ps idx spend)
        → steps spend (most_shares N side ps idx spend) < fuel
        → gt (gap side q idx alpha spend spend) nought ≡ false
        → gt (gap side q idx alpha spend (most_shares N side ps idx spend)) nought ≡ true
        → (r : F) × (payout_for_spend N fuel q idx alpha spend side ≡ ok r)
          × Brackets N (gap side q idx alpha spend) thousandth r
    unfolding payout_for_spend
    payout_for_spend-Brackets fuel q idx alpha spend side ps priced range enough low high =
        let (r, found, bracket) =
          bisect-Brackets N (spend_gap N side q idx alpha (cost N q alpha) spend)
            (gap side q idx alpha spend) (IsFresh side q idx)
            (λ next delta fresh. spend_gap-gap side q idx alpha spend next delta fresh) thousandth h
            fuel q spend (most_shares N side ps idx spend)
            (unfold IsFresh in write_self N side q idx) range enough low high in
        (r, rw (priced, found) refl, bracket)

  find_index-some :
      (id : ℤ) (os : List (Outcome D)) {idx : ℕ} → find_index N id os ≡ some idx → os ≢ []
  unfolding find_index
  find_index-some id [] e = cc
  find_index-some id (o ∷ os) e = cc

  after_bet-ne-nil :
      (side : BetSide) (q : List F) (idx : ℕ) (delta : F)
      → q ≢ []
      → after_bet N side q idx delta ≢ []
  unfolding after_bet
  after_bet-ne-nil y [] idx delta ne = absurd (ne refl)
  after_bet-ne-nil y (x ∷ q) zero delta ne = cc
  after_bet-ne-nil y (x ∷ q) (suc idx) delta ne = cc
  after_bet-ne-nil n [] idx delta ne = absurd (ne refl)
  after_bet-ne-nil n (x ∷ q) zero delta ne = cc
  after_bet-ne-nil n (x ∷ q) (suc idx) delta ne = cc

  pub numbers-ne-nil : (m : MarketView D) → m.outcomes ≢ [] → numbers N m ≢ []
  numbers-ne-nil m ne = go m.outcomes ne
    where
      go :
          (os : List (Outcome D))
          → os ≢ []
          → map to_number (map (λ (o : Outcome D). o.quantity) os) ≢ []
      go [] h = absurd (h refl)
      go (o ∷ os) h = cc

  -- All the prices stay under the cap of the market.
  abbrev pub UnderCap : MarketView D → List F → Type 0
  UnderCap m ps = All (λ p. gt p (to_number m.cap_price) ≡ false) ps

  pub over_cap-UnderCap : (m : MarketView D) (ps : List F) → over_cap N m ps ≡ false → UnderCap m ps
  over_cap-UnderCap m [] e = tt
  over_cap-UnderCap m (p ∷ ps) e = elim (Bool-cases (gt p (to_number m.cap_price))) [
    | inl over ↦ cc (rw over at e)
    | inr under ↦ (under, over_cap-UnderCap m ps (rw under at e))
  ]

  -- The quote `out` of a payout of r shares, after which the prices are ps.
  pub record IsQuote (m : MarketView D) (spend : D) (r : F) (ps : List F) (out : Bool × D × D)
      : Type 0 where
    pub accepted : out.0 ≡ true → UnderCap m ps
    pub payout : out.0 ≡ true → out.1 ≡ to_decimal_places (of_number r) 2 round_down
    pub proportion : out.0 ≡ true → out.2 ≡ to_decimal_places (over spend out.1) 12 round_up
    pub refused : out.0 ≡ false → ((out.1 ≡ d_zero) × (out.2 ≡ d_zero)) × (over_cap N m ps ≡ true)

  spend_quote-IsQuote :
      (m : MarketView D) (spend : D) (r : F) (ps : List F)
      → IsQuote m spend r ps (spend_quote N m spend r ps)
  unfolding truncate_precision gain_proportion
  spend_quote-IsQuote m spend r ps = elim (Bool-cases (over_cap N m ps)) [
    | inl over ↦ rw over (record {
      accepted = λ e. cc;
      payout = λ e. cc;
      proportion = λ e. cc;
      refused = λ _. ((refl, refl), over);
    })
    | inr under ↦ rw under (record {
      accepted = λ _. over_cap-UnderCap m ps under;
      payout = λ _. refl;
      proportion = λ _. refl;
      refused = λ e. cc;
    })
  ]

  -- For an outcome of the market and a payout r that `payoutForSpend` returns, a quote is returned. If
  -- it is possible, no price after a bet of r shares is over the cap, and the quote is r rounded down
  -- to two places with the money over that, rounded up to twelve; if not, some price is over the cap
  -- and both numbers are 0.
  pub possible_payout_prob_for_spend-IsQuote :
      (fuel : ℕ) (m : MarketView D) (id : ℤ) (spend : D) (side : BetSide) (idx : ℕ) (r : F)
      → find_index N id m.outcomes ≡ some idx
      → payout_for_spend N fuel (numbers N m) idx (to_number m.alpha) (to_number spend) side ≡ ok r
      → (ps : List F) × (out : Bool × D × D) × (prices N
            (after_bet N side (numbers N m) idx r)
            (to_number m.alpha)
          ≡ ok ps)
        × (possible_payout_prob_for_spend N fuel m id spend side ≡ ok out)
        × IsQuote m spend r ps out
  unfolding possible_payout_prob_for_spend
  possible_payout_prob_for_spend-IsQuote fuel m id spend side idx r found paid =
      let q = numbers N m in
      let ne =
        after_bet-ne-nil side q idx r (numbers-ne-nil m (find_index-some id m.outcomes found)) in
      let (ps, priced, _) = prices_total N (after_bet N side q idx r) (to_number m.alpha) ne in
      (
        ps,
        spend_quote N m spend r ps,
        priced,
        rw (found, paid, priced) refl,
        spend_quote-IsQuote m spend r ps,
      )
