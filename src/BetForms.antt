-- ===== src/BetForms.antt =====
-- frontend/seer/src/ui/bet/BetModal.tsx: the form that places a bet. The markup is left out; what a press of a
-- button does is worked out from what the last rendering computed. CashingOut has the buttons that cash a bet out.
pub mod Placing
pub mod Sending
pub mod Capped
pub mod Session
pub mod Orderly
pub mod CashingOut
pub mod Confirming
mod Tests
use seer.Common.{
  ℕ, String, Bool, true, false, not, ◌&&◌, ◌||◌, Option, none, some, List, [], ◌∷◌, if◌then◌else◌,
}
use seer.Common.Int.{ℤ, eqb_ℤ}
use seer.Common.Result.{Result, ok, thrown, out_of_fuel}
use seer.Definitions.{
  Outcome, MarketView, Balance, Currency, usdt, Bet, BetSide, BetStatus, active, won, lost,
  cashed_out, PlaceBet, CashoutBet,
}
use seer.Clock.{is_market_active}
use seer.Numbers.{Numbers}
use seer.Lslmsr.Quotes.{possible_payout_prob_for_spend, possible_payout_delta_for_cashout}

-- The state of BetModal, and whether its mutation is pending.
pub record BetForm (D : Type 0) : Type 0 where
  pub selected_side : BetSide
  pub outcome_id : ℤ
  pub amount : Option D
  pub show_success : Bool
  pub price_chart_show : Bool
  pub idempotency_key : String
  pub is_pending : Bool

-- What it reads from the caches: is there a user, the market and the balance.
pub record BetView (D : Type 0) : Type 0 where
  pub user : Bool
  pub market : Option (MarketView D)
  pub balance : Option (Balance D)

-- What a press of the button does.
pub data Effect (B : Type 0) : Type 0 where
  does_nothing : Effect B
  opens_auth : Effect B
  mutates : B → Effect B

module _ {D : Type 0} where
  unfoldable pub initial_form : ℤ → BetSide → String → BetForm D
  initial_form initial_outcome_id initial_side key = record {
    selected_side = initial_side;
    outcome_id = initial_outcome_id;
    amount = none;
    show_success = false;
    price_chart_show = true;
    idempotency_key = key;
    is_pending = false;
  }

  unfoldable pub find_outcome : ℤ → List (Outcome D) → Option (Outcome D)
  find_outcome id [] = none
  find_outcome id (o ∷ os) = if eqb_ℤ o.id id then some o else find_outcome id os

  -- `outcomes[0].id` throws if there is no outcome, `outcomes[1].id` if a binary market has no second one.
  abbrev pub has_choices : Bool → List (Outcome D) → Bool
  has_choices is_binary [] = false
  has_choices is_binary (o ∷ []) = not is_binary
  has_choices is_binary (o ∷ o' ∷ os) = true

module _ (N : Numbers) (is_zero : N.D → Bool) (less_than : N.D → N.D → Bool) (fuel : ℕ) where
  open N use {D, d_zero}

  -- `amount && !amount.isZero()`
  abbrev pub is_staked : Option D → Bool
  is_staked none = false
  is_staked (some amount) = not (is_zero amount)

  abbrev pub quote : MarketView D → BetForm D → Option D → Result (Bool × D × D)
  quote market form none = ok (false, d_zero, d_zero)
  quote market form (some amount) =
      if not (is_zero amount)
      then possible_payout_prob_for_spend N fuel market form.outcome_id amount form.selected_side
      else ok (false, d_zero, d_zero)

  abbrev pub has_insufficient_funds : Option (Balance D) → Option D → Bool
  has_insufficient_funds (some balance) (some amount) = less_than balance.balance amount
  has_insufficient_funds _ _ = false

  abbrev pub bet_too_much : Bool → Option D → Bool
  bet_too_much possible amount = is_staked amount && not possible

  abbrev pub is_errored : Bool → Option (Balance D) → Option D → Bool
  is_errored possible balance amount =
      bet_too_much possible amount || has_insufficient_funds balance amount

  abbrev pub request : MarketView D → Outcome D → D → D → BetForm D → PlaceBet D
  request market outcome amount payout form = record {
    bet_amount = amount;
    min_wanted_gain = payout;
    market_id = market.id;
    outcome_id = outcome.id;
    side = form.selected_side;
    currency = usdt;
    idempotency_key = form.idempotency_key;
  }

  abbrev pub place :
      MarketView D
      → Outcome D
      → Option (Balance D)
      → Option D
      → BetForm D
      → Bool × D × D
      → Effect (PlaceBet D)
  place market outcome (some balance) (some amount) form (possible, payout, probability) =
      if not possible || less_than balance.balance amount
      then does_nothing
      else mutates (request market outcome amount payout form)
  place market outcome _ _ form q = does_nothing

  abbrev pub handle_click_bet :
      Bool
      → MarketView D
      → Outcome D
      → Option (Balance D)
      → BetForm D
      → Bool × D × D
      → Effect (PlaceBet D)
  handle_click_bet user market outcome balance form q =
      if not user then opens_auth else place market outcome balance form.amount form q

  -- `disabled` of the button, which is also disabled while it is loading.
  abbrev pub is_disabled : Bool → Option (Balance D) → BetForm D → Bool → Bool
  is_disabled user balance form possible =
      form.is_pending || (user && (not possible || has_insufficient_funds balance form.amount))

  -- A press of the button of a form that was rendered with the quote.
  abbrev pub press_quoted :
      BetView D → BetForm D → MarketView D → Outcome D → Result (Bool × D × D) → Effect (PlaceBet D)
  press_quoted view form market outcome (ok q) =
      if is_disabled view.user view.balance form q.0
      then does_nothing
      else handle_click_bet view.user market outcome view.balance form q
  press_quoted view form market outcome _ = does_nothing

  abbrev pub press_outcome :
      BetView D → BetForm D → MarketView D → Option (Outcome D) → Effect (PlaceBet D)
  press_outcome view form market none = does_nothing
  press_outcome view form market (some outcome) =
      press_quoted view form market outcome (quote market form form.amount)

  -- There is no button without a market or an outcome, after a success, and where the rendering throws.
  abbrev pub press_market : BetView D → BetForm D → Option (MarketView D) → Effect (PlaceBet D)
  press_market view form none = does_nothing
  press_market view form (some market) =
      if form.show_success || not (has_choices market.is_binary market.outcomes)
      then does_nothing
      else press_outcome view form market (find_outcome form.outcome_id market.outcomes)

  unfoldable pub press : BetView D → BetForm D → Effect (PlaceBet D)
  press view form = press_market view form view.market
