-- ===== src/Cards/Tests.antt =====
-- The card and the page of a market at concrete inputs.
use seer.Samples.{thousandths, even_market, outcome}
use seer.Common.{ℕ, ◌≡◌, ◌↔◌, refl, ltb, Bool, true, false, none, some, [], ◌∷◌, ◌==◌}
use seer.Common.Int.{ℤ, pos}
use seer.Definitions.{Outcome, MarketView, PlaceBet, active, resolved, y, n, usdt}
use seer.Clock.{is_market_active, is_market_pending, is_closed}
use seer.Lslmsr.Bisect.{bisect}
use seer.Lslmsr.Shares.{after_bet, write}
use seer.Lslmsr.Sort.{sort}
use seer.Lslmsr.Prices.{prices, softmax_b, compute_b, cost}
use seer.Lslmsr.Quotes.{
  payout_for_spend, find_index, possible_payout_prob_for_spend, truncate_precision, gain_proportion,
}
use seer.BetForms.{BetView, initial_form, find_outcome, mutates, press}
use seer.Cards.{
  BetOpening, CardPress, on_first, press_on_card, card_body, top_outcomes, sorted_outcomes,
}
use seer.Cards.Listed.{IsListed}
use seer.Cards.Sound.{IsLost, card_body-eq-thrown_iff}
use seer.Common.Result.{thrown}
use seer.Cards.MarketPage.{no, press_on_page, resolution_shown}
use seer.Cards.Opening.{press_on_page-press_on_card, press_on_card-press}

abbrev priced : ℕ → ℕ → Outcome ℕ
priced id price = record (outcome id 0) { price_yes = price }

abbrev three_way : MarketView ℕ
three_way = record even_market {
  is_binary = false;
  outcomes = priced 7 200 ∷ priced 8 500 ∷ priced 9 300 ∷ [];
  close_time = some (pos 5000);
}

-- The two of three outcomes with the highest prices are shown, the highest first.
three_way_shown : top_outcomes thousandths three_way ≡ priced 8 500 ∷ priced 9 300 ∷ []
unfolding top_outcomes sorted_outcomes sort
three_way_shown = refl

-- After the closing time the page of a market still opens a form, and its card does not.
page_opens :
    press_on_page three_way (no 0)
    ≡ some (record { market_id = "m"; initial_outcome_id = pos 7; initial_side = n })
unfolding press_on_page
page_opens = refl

three_way_pending : is_market_pending (pos 6000) three_way ≡ true
unfolding is_market_pending
three_way_pending = refl

press_on_page-press_on_card_example :
    (three_way.status ≡ active)
    × (is_closed (pos 6000) three_way.close_time ≡ true)
    × ((rendered : ℤ) (p : CardPress)
        → press_on_card thousandths rendered (pos 6000) three_way p ≡ none)
press_on_page-press_on_card_example =
    press_on_page-press_on_card thousandths (pos 6000) three_way (no 0) page_opens three_way_pending

abbrev is_nought : ℕ → Bool
is_nought a = a == 0

abbrev first_opened : BetOpening
first_opened = record { market_id = "m"; initial_outcome_id = pos 7; initial_side = y }

card_opens : press_on_card thousandths (pos 0) (pos 1) even_market on_first ≡ some first_opened
unfolding press_on_card card_body is_market_active
card_opens = refl

abbrev view : BetView ℕ
view = record {
  user = true;
  market = some even_market;
  balance = some (record { balance = 5000; currency = usdt; version = pos 1 });
}

abbrev sent : PlaceBet ℕ
sent = record {
  bet_amount = 3000;
  min_wanted_gain = 4017;
  market_id = "m";
  outcome_id = pos 7;
  side = y;
  currency = usdt;
  idempotency_key = "k";
}

opened_form_sends :
    press thousandths is_nought ltb 4000 view
      (record (initial_form (pos 7) y "k") { amount = some 3000 })
    ≡ mutates sent
unfolding press find_outcome possible_payout_prob_for_spend payout_for_spend prices softmax_b
    compute_b bisect cost write after_bet find_index truncate_precision gain_proportion initial_form
opened_form_sends = refl

press_on_card-press_example :
    (is_market_active (pos 1) even_market ≡ true)
    × ((o : Outcome ℕ) × IsListed even_market o × (sent.outcome_id ≡ o.id))
    × (sent.side ≡ y)
    × (sent.market_id ≡ "m")
    × (sent.bet_amount ≡ 3000)
    × (sent.idempotency_key ≡ "k")
press_on_card-press_example =
    press_on_card-press thousandths is_nought ltb 4000 (pos 0) (pos 1) even_market on_first
      first_opened "k" 3000 view even_market sent card_opens refl refl opened_form_sends

abbrev settled : MarketView ℕ
settled = record three_way {
  status = resolved;
  resolution =
      some (record { id = none; market_id = "m"; winning_outcome_id = pos 9; created_at = pos 1 });
}

settled_shown : resolution_shown settled ≡ some (some "o")
unfolding resolution_shown find_outcome
settled_shown = refl

abbrev without_winner : MarketView ℕ
without_winner = record even_market {
  status = resolved;
  resolution =
      some (record { id = none; market_id = "m"; winning_outcome_id = pos 9; created_at = pos 1 });
}

card_body-eq-thrown_iff_example :
    (card_body thousandths without_winner ≡ thrown) ↔ IsLost thousandths without_winner
card_body-eq-thrown_iff_example =
    card_body-eq-thrown_iff thousandths without_winner
      (record { binary_eq = refl; outcomes_ne = λ e. cc })

without_winner_throws : card_body thousandths without_winner ≡ thrown
unfolding card_body find_outcome
without_winner_throws = refl
