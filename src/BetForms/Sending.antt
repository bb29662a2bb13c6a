-- ===== src/BetForms/Sending.antt =====
-- frontend/seer/src/ui/bet/BetModal.tsx: when a press sends a bet.
use seer.Common.{
  ℕ, ◌≡◌, ◌↔◌, refl, sym, ap, ◌∙◌, Bool, true, false, none, some, List, [], ◌∷◌, Bool-cases,
  Option-cases, inl, inr,
}
use seer.Common.Int.{ℤ, eqb_ℤ}
use seer.Common.Result.{ok}
use seer.Definitions.{Outcome, MarketView, Balance, PlaceBet, BetSide}
use seer.Numbers.{Numbers}
use seer.Lslmsr.Quotes.{possible_payout_prob_for_spend, find_index}
use seer.BetForms.{
  BetForm, BetView, mutates, find_outcome, has_choices, quote, request, press_quoted, press_market,
  press,
}
use seer.BetForms.Placing.{IsCovered, press-IsCovered, find_outcome-id}

module _ (N : Numbers) (is_zero : N.D → Bool) (less_than : N.D → N.D → Bool) (fuel : ℕ) where
  open N use {D}

  find_index-eq_none :
      (id : ℤ) (os : List (Outcome D)) → find_outcome id os ≡ none → find_index N id os ≡ none
  unfolding find_outcome find_index
  find_index-eq_none id [] e = refl
  find_index-eq_none id (o ∷ os) e = elim (Bool-cases (eqb_ℤ o.id id)) [
    | inl same ↦ let e' = (rw (same) at e) in cc
    | inr other ↦ let e' = (rw (other) at e) in simp (other, find_index-eq_none id os e')
  ]

  -- A quote is of an outcome that is found.
  quoted-find_outcome :
      (market : MarketView D) (id : ℤ) (spend : D) (side : BetSide) {q : Bool × D × D}
      → possible_payout_prob_for_spend N fuel market id spend side ≡ ok q
      → (o : Outcome D) × (find_outcome id market.outcomes ≡ some o)
  unfolding possible_payout_prob_for_spend
  quoted-find_outcome market id spend side e =
      elim (Option-cases (find_outcome id market.outcomes)) [
        | inl missing ↦ let e' = (rw (find_index-eq_none id market.outcomes missing) at e) in cc
        | inr found ↦ found
      ]

  press_quoted-sends :
      (view : BetView D) (form : BetForm D) (market : MarketView D) (outcome : Outcome D)
      (funds : Balance D) (stake payout probability : D)
      → view.user ≡ true
      → view.balance ≡ some funds
      → form.amount ≡ some stake
      → less_than funds.balance stake ≡ false
      → form.is_pending ≡ false
      → press_quoted N is_zero less_than fuel view form market outcome
          (ok (true, payout, probability))
        ≡ mutates (request N is_zero less_than fuel market outcome stake payout form)
  press_quoted-sends view form market outcome funds stake payout probability u b a l w =
      rw (u, b, a, l, w) refl

  request-eq :
      (view : BetView D) (form : BetForm D) {b : PlaceBet D}
      (c : IsCovered N is_zero less_than fuel view form b) (outcome : Outcome D)
      → outcome.id ≡ form.outcome_id
      → request N is_zero less_than fuel c.market outcome b.bet_amount b.min_wanted_gain form ≡ b
  request-eq view form c outcome same =
      cc (c.market_id_eq, c.outcome_id_eq, c.side_eq, c.currency_eq, c.key_eq, same)

  shown-press_market :
      (view : BetView D) (form : BetForm D) (market : MarketView D) (outcome : Outcome D)
      → form.show_success ≡ false
      → has_choices market.is_binary market.outcomes ≡ true
      → find_outcome form.outcome_id market.outcomes ≡ some outcome
      → press_market N is_zero less_than fuel view form (some market)
        ≡ press_quoted N is_zero less_than fuel view form market outcome
            (quote N is_zero less_than fuel market form form.amount)
  shown-press_market view form market outcome success choices found =
      rw (success, choices, found) refl

  staked-quote :
      (market : MarketView D) (form : BetForm D) (stake : D) {q : Bool × D × D}
      → is_zero stake ≡ false
      → possible_payout_prob_for_spend N fuel market form.outcome_id stake form.selected_side ≡ ok q
      → quote N is_zero less_than fuel market form (some stake) ≡ ok q
  staked-quote market form stake something quoted = rw something quoted

  covered-press :
      (view : BetView D) (form : BetForm D) {b : PlaceBet D}
      → IsCovered N is_zero less_than fuel view form b
      → press N is_zero less_than fuel view form ≡ mutates b
  unfolding press
  covered-press view form {b} c =
      let quoted : possible_payout_prob_for_spend N fuel c.market form.outcome_id b.bet_amount
            form.selected_side
          ≡ ok (true, b.min_wanted_gain, c.probability) =
        rw (sym c.outcome_id_eq, sym c.side_eq) c.quote_eq in
      let (outcome, found) =
        quoted-find_outcome c.market form.outcome_id b.bet_amount form.selected_side quoted in
      ap (λ market. press_market N is_zero less_than fuel view form market) c.market_eq
      ∙ shown-press_market view form c.market outcome c.success_eq c.choices_eq found
      ∙ ap
          (λ amount.
            press_quoted N is_zero less_than fuel view form c.market outcome
              (quote N is_zero less_than fuel c.market form amount))
          c.amount_eq
      ∙ ap (λ q. press_quoted N is_zero less_than fuel view form c.market outcome q)
          (staked-quote c.market form b.bet_amount c.stake_eq quoted)
      ∙ press_quoted-sends view form c.market outcome c.balance b.bet_amount b.min_wanted_gain
          c.probability c.user_eq c.balance_eq c.amount_eq c.funds_eq c.waiting_eq
      ∙ ap mutates (
          request-eq view form c outcome
            (find_outcome-id N is_zero less_than fuel form.outcome_id c.market.outcomes found))

  -- A press of the button sends a bet exactly if it is covered by the form and by what the form reads: the form is
  -- shown and no bet of it waits, a user is signed in, the stake is not 0 and within the balance, the bet
  -- is on the form's outcome and side with its key, and the least gain that is asked for is the payout that
  -- the market maker quotes as possible for it.
  pub press-mutates_iff :
      (view : BetView D) (form : BetForm D) (b : PlaceBet D)
      → (press N is_zero less_than fuel view form ≡ mutates b)
        ↔ IsCovered N is_zero less_than fuel view form b
  press-mutates_iff view form b =
      (λ e. press-IsCovered N is_zero less_than fuel view form e, λ c. covered-press view form c)
