-- ===== src/Lslmsr/Tests.antt =====
-- The market maker at concrete numbers.
use seer.Samples.{thousandths, even_market}
use seer.Common.{
  ℕ, ◌+◌, ◌-◌, ◌*◌, ◌/◌, ◌<◌, ◌≡◌, refl, Bool, true, false, none, some, List, [], ◌∷◌, arith, ltb,
  ltb→lt,
}
use seer.Common.Int.{pos}
use seer.Common.Result.{ok}
use seer.Definitions.{Outcome, MarketView, Bet, y, n, active}
use seer.Lslmsr.Bisect.{bisect, Halving, Brackets}
use seer.Lslmsr.Shares.{after_bet, write, hedge, shift_all, hedge-after_bet}
use seer.Lslmsr.Prices.{prices, after, prices_for_market, softmax_b, compute_b, cost}
use seer.Lslmsr.MarketPrices.{prices_for_market-ArePriced, ArePriced}
use seer.Lslmsr.Quotes.{
  payout_for_spend, find_index, possible_payout_prob_for_spend, possible_payout_delta_for_cashout,
}
use seer.Lslmsr.SpendQuote.{
  gap, payout_for_spend-Brackets, IsQuote, possible_payout_prob_for_spend-IsQuote,
}
use seer.Lslmsr.CashoutQuote.{hedged, IsOffer, possible_payout_delta_for_cashout-IsOffer}

halve_lower :
    (lo hi : ℕ)
    → Unit {0}
    → ltb 1 (hi - lo) ≡ true
    → Unit {0} × ((lo + hi) * 1000 / 2000 - lo < hi - lo)
halve_lower lo hi _ h = (tt, omega (arith, ltb→lt 1 (hi - lo) h))

halve_upper :
    (lo hi : ℕ)
    → Unit {0}
    → ltb 1 (hi - lo) ≡ true
    → Unit {0} × (hi - (lo + hi) * 1000 / 2000 < hi - lo)
halve_upper lo hi _ h = (tt, omega (arith, ltb→lt 1 (hi - lo) h))

abbrev halving : Halving thousandths 1
halving = record {
  InRange = λ lo hi. Unit;
  steps = λ lo hi. hi - lo;
  lower = halve_lower;
  upper = halve_upper;
}

abbrev even : List ℕ
even = 10000 ∷ 10000 ∷ []

even_prices : prices thousandths even 500 ≡ ok (500 ∷ 500 ∷ [])
unfolding prices softmax_b compute_b
even_prices = refl

payout_for_spend-Brackets_example :
    (r : ℕ) × (payout_for_spend thousandths 4000 even 0 500 3000 y ≡ ok r)
    × Brackets thousandths (gap thousandths y even 0 500 3000) 1 r
unfolding gap cost after_bet
payout_for_spend-Brackets_example =
    payout_for_spend-Brackets thousandths halving 4000 even 0 500 3000 y (500 ∷ 500 ∷ [])
      even_prices tt (omega arith) refl refl

-- 3 is spent on the first of two even outcomes.
even_payout : payout_for_spend thousandths 4000 even 0 500 3000 y ≡ ok 4017
unfolding payout_for_spend prices softmax_b compute_b bisect cost write
even_payout = refl

possible_payout_prob_for_spend-IsQuote_example :
    (ps : List ℕ) × (out : Bool × ℕ × ℕ) × (prices thousandths
        (after_bet thousandths y even 0 4017)
        500
      ≡ ok ps)
    × (possible_payout_prob_for_spend thousandths 4000 even_market (pos 7) 3000 y ≡ ok out)
    × IsQuote thousandths even_market 3000 4017 ps out
unfolding find_index
possible_payout_prob_for_spend-IsQuote_example =
    possible_payout_prob_for_spend-IsQuote thousandths 4000 even_market (pos 7) 3000 y 0 4017 refl
      even_payout

abbrev bet : Bet ℕ
bet = record {
  id = "b";
  status = active;
  price_paid = 3000;
  payout = 4000;
  cashed_out = none;
  avg_price = 750;
  market_id = "m";
  market_name = "Market";
  market_img_key = none;
  outcome_id = pos 9;
  side = n;
  outcome_name = "o";
  placed_at = pos 0;
}

possible_payout_delta_for_cashout-IsOffer_example :
    (ps : List ℕ) × (out : Bool × ℕ × ℕ) × (prices thousandths
        (hedged thousandths even_market bet)
        500
      ≡ ok ps)
    × (possible_payout_delta_for_cashout thousandths even_market bet ≡ ok out)
    × IsOffer thousandths even_market bet ps out
possible_payout_delta_for_cashout-IsOffer_example =
    possible_payout_delta_for_cashout-IsOffer thousandths even_market bet (λ e. cc)

hedge-after_bet_example :
    hedge thousandths n (after_bet thousandths n even 1 250) (some 1) 250
    ≡ shift_all thousandths even 250
hedge-after_bet_example = hedge-after_bet thousandths n even 1 250 (omega arith)

prices_for_market-ArePriced_example :
    (m' : MarketView ℕ) × (ps : List ℕ) × (prices_for_market thousandths even_market ≡ ok m')
    × ArePriced thousandths even_market m' ps
prices_for_market-ArePriced_example = prices_for_market-ArePriced thousandths even_market (λ e. cc)

not_both_after : (a b : Outcome ℕ) → after thousandths a b ≡ true → after thousandths b a ≡ false
not_both_after a b h = ground arith

abbrev priced : MarketView ℕ
priced = (prices_for_market-ArePriced thousandths even_market (λ e. cc)).0
