-- ===== src/BetForms/Capped.antt =====
-- frontend/seer/src/ui/bet/BetModal.tsx with lib/lslmsr/lslmsr.ts: what a bet that is sent does to the prices.
use seer.Common.{ℕ, ◌≡◌, sym, ap, ◌∙◌, Bool, true, some, List, Option-cases, inl, inr}
use seer.Common.Int.{ℤ}
use seer.Common.Result.{ok, >>=-eq-ok}
use seer.Definitions.{MarketView, PlaceBet, BetSide}
use seer.Numbers.{Numbers, round_down}
use seer.Lslmsr.Prices.{prices}
use seer.Lslmsr.Quotes.{possible_payout_prob_for_spend, find_index, payout_for_spend, numbers}
use seer.Lslmsr.Shares.{after_bet}
use seer.Lslmsr.SpendQuote.{UnderCap, possible_payout_prob_for_spend-IsQuote}
use seer.BetForms.{BetForm, BetView, mutates, press}
use seer.BetForms.Placing.{press-IsCovered}

module _ (N : Numbers) where
  open N use {F, D, to_number, of_number, to_decimal_places}

  -- A payout of r shares is what the least gain is rounded down from, and the prices ps after it are under the cap.
  pub record IsCapped (market : MarketView D) (side : BetSide) (gain : D) (idx : ℕ) (r : F)
      (ps : List F) : Type 0 where
    pub prices_eq :
        prices N (after_bet N side (numbers N market) idx r) (to_number market.alpha) ≡ ok ps
    pub under_cap : UnderCap N market ps
    pub gain_eq : gain ≡ to_decimal_places (of_number r) 2 round_down

  quote-IsCapped :
      (fuel : ℕ) (market : MarketView D) (id : ℤ) (spend : D) (side : BetSide)
      (gain probability : D)
      → possible_payout_prob_for_spend N fuel market id spend side ≡ ok (true, gain, probability)
      → (idx : ℕ) × (r : F) × (ps : List F) × (find_index N id market.outcomes ≡ some idx)
        × IsCapped market side gain idx r ps
  unfolding possible_payout_prob_for_spend
  quote-IsCapped fuel market id spend side gain probability e =
      elim (Option-cases (find_index N id market.outcomes)) [
        | inl missing ↦ let e' = (rw (missing) at e) in cc
        | inr (idx, found) ↦
            let e' = (rw (found) at e) in
            let (r, paid, _) =
              >>=-eq-ok
                (payout_for_spend N fuel (numbers N market) idx (to_number market.alpha)
                  (to_number spend) side)
                _ e' in
            let (ps, out, priced, quoted, q) =
              possible_payout_prob_for_spend-IsQuote N fuel market id spend side idx r found paid in
            let same : out ≡ (true, gain, probability) = cc in
            (
              idx,
              r,
              ps,
              found,
              record {
                prices_eq = priced;
                under_cap = q.accepted (ap (λ (o : Bool × D × D). o.0) same);
                gain_eq =
                    sym (ap (λ (o : Bool × D × D). o.1) same)
                    ∙ q.payout (ap (λ (o : Bool × D × D). o.0) same);
              },
            )
      ]

  -- A bet that a press of the button sends asks for a payout, rounded down to two places, after which the
  -- market that was shown has no price over its cap.
  pub press-IsCapped :
      (is_zero : D → Bool) (less_than : D → D → Bool) (fuel : ℕ) (view : BetView D)
      (form : BetForm D) {b : PlaceBet D}
      → press N is_zero less_than fuel view form ≡ mutates b
      → (market : MarketView D) × (idx : ℕ) × (r : F) × (ps : List F) × (view.market ≡ some market)
        × (find_index N b.outcome_id market.outcomes ≡ some idx)
        × IsCapped market b.side b.min_wanted_gain idx r ps
  press-IsCapped is_zero less_than fuel view form {b} e =
      let c = press-IsCovered N is_zero less_than fuel view form e in
      let (idx, r, ps, found, capped) =
        quote-IsCapped fuel c.market b.outcome_id b.bet_amount b.side b.min_wanted_gain
          c.probability c.quote_eq in
      (c.market, idx, r, ps, c.market_eq, found, capped)
