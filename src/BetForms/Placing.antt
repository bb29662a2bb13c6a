-- ===== src/BetForms/Placing.antt =====
-- frontend/seer/src/ui/bet/BetModal.tsx: which bets are sent, with the quote of lib/lslmsr/lslmsr.ts.
use seer.Common.{
  or-left, or-right, not-false, ℕ, ◌≡◌, refl, subst, Bool, true, false, not, ◌||◌, Option, none,
  some, List, [], ◌∷◌, Bool-cases, Option-cases, inl, inr,
}
use mathlib.Core.Option.{some-injective}
use seer.Common.Int.{ℤ, eqb_ℤ, eqb_ℤ_iff}
use seer.Common.Result.{Result, ok, thrown, out_of_fuel}
use seer.Definitions.{usdt, Outcome, MarketView, Balance, PlaceBet}
use seer.Numbers.{Numbers}
use seer.Lslmsr.Quotes.{possible_payout_prob_for_spend}
use seer.BetForms.{
  BetForm, BetView, mutates, find_outcome, has_choices, quote, request, place, handle_click_bet,
  is_disabled, press_quoted, press_market, press,
}

module _ (N : Numbers) (is_zero : N.D → Bool) (less_than : N.D → N.D → Bool) (fuel : ℕ) where
  open N use {F, D, to_number}

  -- The bet b is what the form holds in view of a user, a market with its outcome, and a balance that covers
  -- the stake; its least gain is the payout of a quote that is possible.
  pub record IsCovered (view : BetView D) (form : BetForm D) (b : PlaceBet D) : Type 0 where
    pub market : MarketView D
    pub balance : Balance D
    pub probability : D
    pub user_eq : view.user ≡ true
    pub market_eq : view.market ≡ some market
    pub balance_eq : view.balance ≡ some balance
    pub amount_eq : form.amount ≡ some b.bet_amount
    pub stake_eq : is_zero b.bet_amount ≡ false
    pub funds_eq : less_than balance.balance b.bet_amount ≡ false
    pub market_id_eq : b.market_id ≡ market.id
    pub outcome_id_eq : b.outcome_id ≡ form.outcome_id
    pub key_eq : b.idempotency_key ≡ form.idempotency_key
    pub side_eq : b.side ≡ form.selected_side
    pub quote_eq :
        possible_payout_prob_for_spend N fuel market b.outcome_id b.bet_amount b.side
        ≡ ok (true, b.min_wanted_gain, probability)
    pub waiting_eq : form.is_pending ≡ false
    pub success_eq : form.show_success ≡ false
    pub choices_eq : has_choices market.is_binary market.outcomes ≡ true
    pub currency_eq : b.currency ≡ usdt

  pub find_outcome-id :
      (id : ℤ) (os : List (Outcome D)) {o : Outcome D} → find_outcome id os ≡ some o → o.id ≡ id
  unfolding find_outcome
  find_outcome-id id [] e = cc
  find_outcome-id id (p ∷ os) {o} e = elim (Bool-cases (eqb_ℤ p.id id)) [
    | inl same ↦
        let e' = (rw (same) at e) in
        subst (λ (q : Outcome D). q.id ≡ id) (some-injective _ _ e') ((eqb_ℤ_iff p.id id).0 same)
    | inr other ↦ let e' = (rw (other) at e) in find_outcome-id id os e'
  ]

  -- What `place` asks for before it sends.
  place-mutates :
      (market : MarketView D) (outcome : Outcome D) (balance : Option (Balance D))
      (amount : Option D) (form : BetForm D) (q : Bool × D × D) {b : PlaceBet D}
      → place N is_zero less_than fuel market outcome balance amount form q ≡ mutates b
      → (funds : Balance D) × (stake : D) × (balance ≡ some funds)
        × (amount ≡ some stake)
        × (q.0 ≡ true)
        × (less_than funds.balance stake ≡ false)
        × (request N is_zero less_than fuel market outcome stake q.1 form ≡ b)
  place-mutates market outcome (some funds) (some stake) form (true, payout, probability) e =
      elim (Bool-cases (less_than funds.balance stake)) [
        | inl short ↦ let e' = (rw (short) at e) in cc
        | inr covered ↦
            let e' = (rw (covered) at e) in (funds, stake, refl, refl, refl, covered, cc)
      ]
  place-mutates market outcome (some funds) (some stake) form (false, payout, probability) e = cc
  place-mutates market outcome (some funds) none form q e = cc
  place-mutates market outcome none amount form q e = cc

  handle_click_bet-mutates :
      (user : Bool) (market : MarketView D) (outcome : Outcome D) (balance : Option (Balance D))
      (form : BetForm D) (q : Bool × D × D) {b : PlaceBet D}
      → handle_click_bet N is_zero less_than fuel user market outcome balance form q ≡ mutates b
      → (user ≡ true)
        × (place N is_zero less_than fuel market outcome balance form.amount form q ≡ mutates b)
  handle_click_bet-mutates true market outcome balance form q e = (refl, e)
  handle_click_bet-mutates false market outcome balance form q e = cc

  -- A button that sends is not disabled, and the rendering got a quote.
  press_quoted-mutates :
      (view : BetView D) (form : BetForm D) (market : MarketView D) (outcome : Outcome D)
      (quoted : Result (Bool × D × D)) {b : PlaceBet D}
      → press_quoted N is_zero less_than fuel view form market outcome quoted ≡ mutates b
      → (q : Bool × D × D) × (quoted ≡ ok q)
        × (form.is_pending ≡ false)
        × (handle_click_bet N is_zero less_than fuel view.user market outcome view.balance form q
            ≡ mutates b)
  press_quoted-mutates view form market outcome thrown e = cc
  press_quoted-mutates view form market outcome out_of_fuel e = cc
  press_quoted-mutates view form market outcome (ok q) e =
      elim (Bool-cases (is_disabled N is_zero less_than fuel view.user view.balance form q.0)) [
        | inl disabled ↦ let e' = (rw (disabled) at e) in cc
        | inr enabled ↦
            let e' = (rw (enabled) at e) in (q, refl, or-left form.is_pending _ enabled, e')
      ]

  -- A quote that is possible was worked out for a stake that is not 0.
  quote-possible :
      (market : MarketView D) (form : BetForm D) {amount : Option D} (stake : D) (q : Bool × D × D)
      → amount ≡ some stake
      → quote N is_zero less_than fuel market form amount ≡ ok q
      → q.0 ≡ true
      → (is_zero stake ≡ false)
        × (possible_payout_prob_for_spend N fuel market form.outcome_id stake form.selected_side
            ≡ ok (true, q.1, q.2))
  quote-possible market form {amount = none} stake q staked e possible = cc
  quote-possible market form {amount = some amount} stake (false, payout, probability) staked e
        possible =
      cc
  quote-possible market form {amount = some amount} stake (true, payout, probability) staked e
        possible =
      elim (Bool-cases (is_zero stake)) [
        | inl nothing ↦ let e' = (rw (some-injective _ _ staked, nothing) at e) in cc
        | inr something ↦ (something, (rw (some-injective _ _ staked, something) at e))
      ]

  request-IsCovered :
      (view : BetView D) (form : BetForm D) (market : MarketView D) (outcome : Outcome D)
      (funds : Balance D) (stake payout probability : D)
      → view.user ≡ true
      → view.market ≡ some market
      → view.balance ≡ some funds
      → form.amount ≡ some stake
      → (is_zero stake ≡ false)
        × (possible_payout_prob_for_spend N fuel market form.outcome_id stake form.selected_side
            ≡ ok (true, payout, probability))
      → less_than funds.balance stake ≡ false
      → outcome.id ≡ form.outcome_id
      → form.is_pending ≡ false
      → (form.show_success ≡ false) × (has_choices market.is_binary market.outcomes ≡ true)
      → IsCovered view form (request N is_zero less_than fuel market outcome stake payout form)
  request-IsCovered view form market outcome funds stake payout probability u m b a (z, quoted) l o
        w (s, choices) =
      record {
        market = market;
        balance = funds;
        probability = probability;
        user_eq = u;
        market_eq = m;
        balance_eq = b;
        amount_eq = a;
        stake_eq = z;
        funds_eq = l;
        market_id_eq = refl;
        outcome_id_eq = o;
        key_eq = refl;
        side_eq = refl;
        quote_eq = rw o quoted;
        waiting_eq = w;
        success_eq = s;
        choices_eq = choices;
        currency_eq = refl;
      }

  press_market-mutates :
      (view : BetView D) (form : BetForm D) (market : Option (MarketView D)) {b : PlaceBet D}
      → press_market N is_zero less_than fuel view form market ≡ mutates b
      → (shown : MarketView D) × (outcome : Outcome D) × (market ≡ some shown)
        × ((form.show_success ≡ false) × (has_choices shown.is_binary shown.outcomes ≡ true))
        × (find_outcome form.outcome_id shown.outcomes ≡ some outcome)
        × (press_quoted N is_zero less_than fuel view form shown outcome
              (quote N is_zero less_than fuel shown form form.amount)
            ≡ mutates b)
  press_market-mutates view form none e = cc
  press_market-mutates view form (some shown) e =
      elim (Bool-cases (form.show_success || not (has_choices shown.is_binary shown.outcomes))) [
        | inl hidden ↦ let e' = (rw (hidden) at e) in cc
        | inr visible ↦
            let e' = (rw (visible) at e) in
            elim (Option-cases (find_outcome form.outcome_id shown.outcomes)) [
              | inl missing ↦ let e'' = (rw (missing) at e') in cc
              | inr (outcome, found) ↦
                  let e'' = (rw (found) at e') in
                  (
                    shown,
                    outcome,
                    refl,
                    (
                      or-left form.show_success _ visible,
                      not-false _ (or-right form.show_success _ visible),
                    ),
                    found,
                    e'',
                  )
            ]
      ]

  -- What a press sends is covered.
  pub press-IsCovered :
      (view : BetView D) (form : BetForm D) {b : PlaceBet D}
      → press N is_zero less_than fuel view form ≡ mutates b
      → IsCovered view form b
  unfolding press
  press-IsCovered view form {b} e =
      let (shown, outcome, market_eq, success_eq, found, quoted) =
        press_market-mutates view form view.market e in
      let (q, q_eq, waiting_eq, clicked) =
        press_quoted-mutates view form shown outcome
          (quote N is_zero less_than fuel shown form form.amount) quoted in
      let (user_eq, placed) =
        handle_click_bet-mutates view.user shown outcome view.balance form q clicked in
      let (funds, stake, balance_eq, amount_eq, possible, covered, sent) =
        place-mutates shown outcome view.balance form.amount form q placed in
      subst (λ sent. IsCovered view form sent) sent
        (request-IsCovered view form shown outcome funds stake q.1 q.2 user_eq market_eq balance_eq
          amount_eq (quote-possible shown form stake q amount_eq q_eq possible) covered
          (find_outcome-id form.outcome_id shown.outcomes found) waiting_eq success_eq)
