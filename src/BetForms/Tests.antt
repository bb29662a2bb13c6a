-- ===== src/BetForms/Tests.antt =====
-- The bet forms at concrete inputs.
use seer.Samples.{thousandths, even_market}
use seer.Common.{◌↔◌, ℕ, ◌≡◌, refl, Bool, true, false, none, some, List, [], ◌∷◌, ◌==◌, ltb}
use seer.Common.Int.{pos}
use seer.Definitions.{PlaceBet, y, usdt, MarketView, Bet, CashoutBet, active}
use seer.Lslmsr.Bisect.{bisect}
use seer.Lslmsr.Shares.{after_bet, write, hedge}
use seer.Lslmsr.Prices.{prices, softmax_b, compute_b, cost}
use seer.Lslmsr.Quotes.{
  payout_for_spend, find_index, possible_payout_prob_for_spend, possible_payout_delta_for_cashout,
  truncate_precision, gain_proportion,
}
use seer.BetForms.{BetForm, BetView, mutates, initial_form, find_outcome, press}
use seer.BetForms.Placing.{IsCovered}
use seer.BetForms.Sending.{press-mutates_iff}
use seer.BetForms.Capped.{IsCapped, press-IsCapped}
use seer.BetForms.Session.{Event, types, presses, is_answered, run}
use seer.BetForms.CashingOut.{press_user}
use seer.BetForms.Confirming as Confirming
use seer.BetForms.Confirming.{CashoutEvent, form_after}
use seer.BetForms.Confirming.Requested.{IsRequested, press_user-IsRequested}
use seer.BetForms.Orderly.{Obeys, ready, run-Obeys}

abbrev is_nought : ℕ → Bool
is_nought a = a == 0

abbrev view : BetView ℕ
view = record {
  user = true;
  market = some even_market;
  balance = some (record { balance = 5000; currency = usdt; version = pos 1 });
}

abbrev form : BetForm ℕ
form = record {
  selected_side = y;
  outcome_id = pos 7;
  amount = some 3000;
  show_success = false;
  price_chart_show = true;
  idempotency_key = "k";
  is_pending = false;
}

abbrev bet_of_form : PlaceBet ℕ
bet_of_form = record {
  bet_amount = 3000;
  min_wanted_gain = 4017;
  market_id = "m";
  outcome_id = pos 7;
  side = y;
  currency = usdt;
  idempotency_key = "k";
}

form_sends : press thousandths is_nought ltb 4000 view form ≡ mutates bet_of_form
unfolding press find_outcome possible_payout_prob_for_spend payout_for_spend prices softmax_b
    compute_b bisect cost write after_bet find_index truncate_precision gain_proportion
form_sends = refl

press-IsCapped_example :
    (market : MarketView ℕ) × (idx : ℕ) × (r : ℕ) × (ps : List ℕ) × (some even_market ≡ some market)
    × (find_index thousandths (pos 7) market.outcomes ≡ some idx)
    × IsCapped thousandths market y 4017 idx r ps
press-IsCapped_example = press-IsCapped thousandths is_nought ltb 4000 view form form_sends

-- The stake is typed, the button pressed twice, the bet refused, and the button pressed again.
abbrev attempts : List (BetView ℕ × Event ℕ)
attempts =
    (view, types (some 3000))
    ∷ (view, presses)
    ∷ (view, presses)
    ∷ (view, is_answered false)
    ∷ (view, presses)
    ∷ (view, is_answered true)
    ∷ (view, presses)
    ∷ []

run-Obeys_example :
    Obeys "k" ready (run thousandths is_nought ltb 4000 (initial_form (pos 7) y "k") attempts)
run-Obeys_example = run-Obeys thousandths is_nought ltb 4000 (pos 7) y "k" attempts

abbrev bet : Bet ℕ
bet = record {
  id = "b";
  status = active;
  price_paid = 3000;
  payout = 4017;
  cashed_out = none;
  avg_price = 750;
  market_id = "m";
  market_name = "Market";
  market_img_key = none;
  outcome_id = pos 7;
  side = y;
  outcome_name = "o";
  placed_at = pos 0;
}

-- The button was pressed once.
abbrev pressed_once : List (CashoutEvent ℕ)
pressed_once = Confirming.presses (some even_market) bet ∷ []

abbrev cashout : CashoutBet ℕ
cashout = record { bet_id = "b"; min_wanted_gain = 1018; idempotency_key = "k" }

second_press_sends :
    (press_user thousandths (some even_market) bet (form_after thousandths "k" pressed_once)).0
    ≡ mutates cashout
unfolding press_user possible_payout_delta_for_cashout prices softmax_b compute_b cost hedge
    find_index truncate_precision
second_press_sends = refl

press_user-IsRequested_example :
    IsRequested thousandths "k" pressed_once (some even_market) bet cashout
press_user-IsRequested_example =
    press_user-IsRequested thousandths "k" pressed_once (some even_market) bet second_press_sends

press-mutates_iff_example :
    (press thousandths is_nought ltb 4000 view form ≡ mutates bet_of_form)
    ↔ IsCovered thousandths is_nought ltb 4000 view form bet_of_form
press-mutates_iff_example = press-mutates_iff thousandths is_nought ltb 4000 view form bet_of_form
