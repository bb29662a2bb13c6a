-- ===== src/Lslmsr/CashoutQuote.antt =====
-- `possiblePayoutDeltaForCashout` of lslmsr.ts: the offer for a bet that is still open.
use seer.Common.{
  ℕ, zero, suc, Option, ◌≡◌, ◌≢◌, refl, ap, ◌∙◌, Bool, true, false, none, some, List, [], ◌∷◌,
  Bool-cases, inl, inr,
}
use seer.Common.Result.{ok}
use seer.Definitions.{MarketView, Bet, BetSide, y, n}
use seer.Numbers.{Numbers, round_up, round_down}
use seer.Lslmsr.Shares.{hedge}
use seer.Lslmsr.Prices.{cost, prices}
use seer.Lslmsr.MarketPrices.{prices_total}
use seer.Lslmsr.Quotes.{
  find_index, numbers, over_cap, cashout_gain, possible_payout_delta_for_cashout,
  truncate_precision,
}
use seer.Lslmsr.SpendQuote.{UnderCap, over_cap-UnderCap, numbers-ne-nil}

module _ (N : Numbers) where
  open N use {F, sub, D, d_one, of_number, to_number, minus, over, to_decimal_places}

  hedge-ne-nil :
      (side : BetSide) (q : List F) (i : Option ℕ) (delta : F)
      → q ≢ []
      → hedge N side q i delta ≢ []
  unfolding hedge
  hedge-ne-nil y [] none delta ne = absurd (ne refl)
  hedge-ne-nil y (x ∷ q) none delta ne = cc
  hedge-ne-nil y [] (some i) delta ne = absurd (ne refl)
  hedge-ne-nil y (x ∷ q) (some zero) delta ne = cc
  hedge-ne-nil y (x ∷ q) (some (suc i)) delta ne = cc
  hedge-ne-nil n q none delta ne = ne
  hedge-ne-nil n [] (some i) delta ne = absurd (ne refl)
  hedge-ne-nil n (x ∷ q) (some zero) delta ne = cc
  hedge-ne-nil n (x ∷ q) (some (suc i)) delta ne = cc

  -- The shares of the market once the bet is hedged.
  abbrev pub hedged : MarketView D → Bet D → List F
  hedged m bet =
      hedge N bet.side (numbers N m) (find_index N bet.outcome_id m.outcomes) (to_number bet.payout)

  -- The offer `out`, where the prices after the hedge are ps.
  pub record IsOffer (m : MarketView D) (bet : Bet D) (ps : List F) (out : Bool × D × D)
      : Type 0 where
    pub gain :
        out.2
        ≡ to_decimal_places
            (of_number (
              sub (to_number bet.payout) (
                sub
                  (cost N (hedged m bet) (to_number m.alpha))
                  (cost N (numbers N m) (to_number m.alpha)))))
            2
            round_down
    pub delta : out.1 ≡ to_decimal_places (minus (over out.2 bet.price_paid) d_one) 12 round_up
    pub possible : out.0 ≡ true → UnderCap N m ps
    pub refused : out.0 ≡ false → over_cap N m ps ≡ true

  -- In a market with outcomes every bet gets an offer: the bet's shares less the cost of the hedge,
  -- rounded down to two places, and what that is over the price paid, less one. It is possible exactly
  -- if no price after the hedge is over the cap of the market.
  pub possible_payout_delta_for_cashout-IsOffer :
      (m : MarketView D) (bet : Bet D)
      → m.outcomes ≢ []
      → (ps : List F) × (out : Bool × D × D) × (prices N (hedged m bet) (to_number m.alpha) ≡ ok ps)
        × (possible_payout_delta_for_cashout N m bet ≡ ok out)
        × IsOffer m bet ps out
  unfolding possible_payout_delta_for_cashout truncate_precision
  possible_payout_delta_for_cashout-IsOffer m bet ne =
      let (ps, priced, _) = prices_total N (hedged m bet) (to_number m.alpha) (
        hedge-ne-nil bet.side (numbers N m) (find_index N bet.outcome_id m.outcomes)
          (to_number bet.payout) (numbers-ne-nil N m ne)) in
      let gain =
        cashout_gain N (numbers N m) (hedged m bet) (to_number m.alpha) (to_number bet.payout) in
      let change = truncate_precision N (minus (over gain bet.price_paid) d_one) 12 round_up in
      elim (Bool-cases (over_cap N m ps)) [
        | inl too_high ↦ (
          ps,
          (false, change, gain),
          priced,
          rw (priced, too_high) refl,
          record { gain = refl; delta = refl; possible = λ e. cc; refused = λ _. too_high },
        )
        | inr fine ↦ (
          ps,
          (true, change, gain),
          priced,
          rw (priced, fine) refl,
          record {
            gain = refl;
            delta = refl;
            possible = λ _. over_cap-UnderCap N m ps fine;
            refused = λ e. cc;
          },
        )
      ]

  -- A no-bet on an outcome that the market does not have is not refused: nothing is hedged, so the
  -- market stays as it is and the offer is for the bet's whole payout.
  pub hedged_of_unlisted :
      (m : MarketView D) (bet : Bet D)
      → find_index N bet.outcome_id m.outcomes ≡ none
      → bet.side ≡ n
      → hedged m bet ≡ numbers N m
  hedged_of_unlisted m bet missing no_bet =
      ap (λ i. hedge N bet.side (numbers N m) i (to_number bet.payout)) missing
      ∙ ap (λ s. hedge N s (numbers N m) none (to_number bet.payout)) no_bet
      ∙ unfold hedge in refl
