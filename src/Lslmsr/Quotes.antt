-- ===== src/Lslmsr/Quotes.antt =====
-- The quotes of lslmsr.ts and math_util.ts: `payoutForSpend`, `possiblePayoutProbForSpend` and
-- `possiblePayoutDeltaForCashout`.
use seer.Common.{
  ℕ, zero, suc, Bool, true, false, Option, none, some, List, [], ◌∷◌, map, any, if◌then◌else◌,
}
use seer.Common.Int.{ℤ, eqb_ℤ}
use seer.Common.Result.{Result, ok, thrown, out_of_fuel, ◌>>=◌}
use seer.Definitions.{Outcome, MarketView, Bet, BetSide, y, n}
use seer.Numbers.{Numbers, Rounding, round_up, round_down}
use seer.Lslmsr.Bisect.{bisect}
use seer.Lslmsr.Shares.{after_bet, hedge, write}
use seer.Lslmsr.Prices.{cost, prices, at, sum_of}

abbrev pub scale : ℕ
scale = 12

module _ (N : Numbers) where
  open N use {
    F, zero as nought, thousandth, sub, div, gt, D, d_zero, d_one, of_number, to_number, minus,
    over, to_decimal_places,
  }

  unfoldable pub truncate_precision : D → ℕ → Rounding → D
  truncate_precision num precision rounding = to_decimal_places num precision rounding

  unfoldable pub gain_proportion : D → D → D
  gain_proportion spend payout = over spend payout

  -- The closure `f` of `payoutForSpend`; its state is the array `qNext`.
  unfoldable pub spend_gap : BetSide → List F → ℕ → F → F → F → List F → F → F × List F
  spend_gap side q idx alpha base_cost spend next delta =
      let next' = write N side q next idx delta in
      (sub (sub (cost N next' alpha) base_cost) spend, next')

  -- The upper end of the search: the shares that the money buys at the present price.
  abbrev pub most_shares : BetSide → List F → ℕ → F → F
  most_shares y p idx spend = div spend (at N p idx)
  most_shares n p idx spend = div spend (sub (sum_of N p) (at N p idx))

  abbrev pub of_search : Option F → Result F
  of_search none = out_of_fuel
  of_search (some payout) = ok payout

  unfoldable pub payout_for_spend : ℕ → List F → ℕ → F → F → BetSide → Result F
  unfolding spend_gap
  payout_for_spend fuel q idx alpha spend side = do
    let base_cost = cost N q alpha
    p ← prices N q alpha
    of_search (
        bisect N fuel q spend (most_shares side p idx spend) thousandth
          (spend_gap side q idx alpha base_cost spend))

  abbrev pub one_further : Option ℕ → Option ℕ
  one_further none = none
  one_further (some i) = some (suc i)

  -- `outcomes.findIndex(o => o.id === id)`, with `none` for -1
  unfoldable pub find_index : ℤ → List (Outcome D) → Option ℕ
  find_index id [] = none
  find_index id (o ∷ os) =
      let rest = find_index id os in if eqb_ℤ o.id id then some zero else one_further rest

  abbrev pub numbers : MarketView D → List F
  numbers market = map to_number (map (λ (o : Outcome D). o.quantity) market.outcomes)

  -- `for (const p of …) if (p > cap) return [false, …]`
  abbrev pub over_cap : MarketView D → List F → Bool
  over_cap market p = any (λ x. gt x (to_number market.cap_price)) p

  abbrev pub spend_quote : MarketView D → D → F → List F → Bool × D × D
  spend_quote market spend payout prices_after =
      if over_cap market prices_after
      then (false, d_zero, d_zero)
      else let rounded = truncate_precision (of_number payout) 2 round_down in
        (true, rounded, truncate_precision (gain_proportion spend rounded) scale round_up)

  abbrev pub quote_at : ℕ → MarketView D → Option ℕ → D → BetSide → Result (Bool × D × D)
  quote_at fuel market none spend side = thrown
  quote_at fuel market (some idx) spend side = do
    payout ←
        payout_for_spend fuel (numbers market) idx (to_number market.alpha) (to_number spend) side
    prices_after ← prices N (after_bet N side (numbers market) idx payout) (to_number market.alpha)
    ok (spend_quote market spend payout prices_after)

  unfoldable pub possible_payout_prob_for_spend :
      ℕ → MarketView D → ℤ → D → BetSide → Result (Bool × D × D)
  possible_payout_prob_for_spend fuel market outcome_id spend side =
      quote_at fuel market (find_index outcome_id market.outcomes) spend side

  -- The gain of a cash-out: the shares, less what the hedge costs.
  abbrev pub cashout_gain : List F → List F → F → F → D
  cashout_gain q q_hedge alpha shares =
      truncate_precision (of_number (sub shares (sub (cost N q_hedge alpha) (cost N q alpha)))) 2
        round_down

  unfoldable pub possible_payout_delta_for_cashout : MarketView D → Bet D → Result (Bool × D × D)
  possible_payout_delta_for_cashout market bet = do
    let q = numbers market
    let alpha = to_number market.alpha
    let shares = to_number bet.payout
    let q_hedge = hedge N bet.side q (find_index bet.outcome_id market.outcomes) shares
    let gain = cashout_gain q q_hedge alpha shares
    let delta = truncate_precision (minus (over gain bet.price_paid) d_one) scale round_up
    prices_after ← prices N q_hedge alpha
    ok (if over_cap market prices_after then (false, delta, gain) else (true, delta, gain))
