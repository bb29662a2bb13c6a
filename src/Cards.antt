-- ===== src/Cards.antt =====
-- frontend/seer/src/ui/markets/home/MarketCard.tsx: a card for a market: what it shows and what a press on it opens.
-- The page of a market, frontend/seer/src/app/(main)/market/[id]/page.tsx, is in MarketPage.
pub mod Top
pub mod Listed
pub mod MarketPage
pub mod Sound
pub mod Opening
mod Tests
use seer.Common.{
  String, Bool, true, false, ◌&&◌, ◌||◌, not, ℕ, Option, none, some, List, [], ◌∷◌, take, get_elem?,
  if◌then◌else◌,
}
use seer.Common.Int.{ℤ, ltb_ℤ}
use seer.Common.Result.{Result, ok, thrown, ◌>>=◌}
use seer.Definitions.{
  Outcome, MarketView, MarketStatus, active, resolved, pending, paused, MarketResolution,
  OutcomeSort, by_price, by_position, BetSide, y, n,
}
use seer.Clock.{is_market_active, is_market_pending}
use seer.Numbers.{Numbers}
use seer.Lslmsr.Sort.{sort}
use seer.BetForms.{find_outcome}

-- What a bet form is opened with, `BetModal`'s properties.
pub record BetOpening : Type 0 where
  pub market_id : String
  pub initial_outcome_id : ℤ
  pub initial_side : BetSide

-- The part of a card between its header and its footer.
pub data CardBody (D : Type 0) : Type 0 where
  shows_nothing : CardBody D
  shows_winner : Outcome D → CardBody D
  shows_rows : List (Outcome D) → CardBody D
  shows_pair : (first second : Outcome D) → CardBody D

-- The places on a card that answer to a press: a row with its two buttons, or one of two buttons.
pub data CardPress : Type 0 where
  on_row on_yes on_no : ℕ → CardPress
  on_first on_second : CardPress

module _ {D : Type 0} where
  abbrev pub opening : MarketView D → BetSide → Outcome D → BetOpening
  opening market side outcome = record {
    market_id = market.id;
    initial_outcome_id = outcome.id;
    initial_side = side;
  }

  abbrev pub opening_of : MarketView D → BetSide → Option (Outcome D) → Option BetOpening
  opening_of market side none = none
  opening_of market side (some outcome) = some (opening market side outcome)

  -- `winningOutcome.name` throws if the winner is not an outcome.
  abbrev pub winner_or_throw : Option (Outcome D) → Result (CardBody D)
  winner_or_throw none = thrown
  winner_or_throw (some outcome) = ok (shows_winner outcome)

  abbrev pub resolved_body : List (Outcome D) → Option MarketResolution → Result (CardBody D)
  resolved_body outcomes none = ok shows_nothing
  resolved_body outcomes (some r) = winner_or_throw (find_outcome r.winning_outcome_id outcomes)

  -- `outcomes[0].name` and `outcomes[1].name` throw if there is no such outcome.
  abbrev pub pair_body : List (Outcome D) → Result (CardBody D)
  pair_body (first ∷ second ∷ others) = ok (shows_pair first second)
  pair_body _ = thrown

  -- The bet form that a place on the card is for. A row is for yes, and its buttons stop the press from
  -- reaching it.
  abbrev pub target : MarketView D → CardBody D → CardPress → Option BetOpening
  target market (shows_rows os) (on_row i) = opening_of market y (get_elem? os i)
  target market (shows_rows os) (on_yes i) = opening_of market y (get_elem? os i)
  target market (shows_rows os) (on_no i) = opening_of market n (get_elem? os i)
  target market (shows_pair first second) on_first = some (opening market y first)
  target market (shows_pair first second) on_second = some (opening market y second)
  target market _ _ = none

  -- The two buttons of a binary market are disabled if it was not active when the card was rendered.
  abbrev pub is_enabled : Bool → CardBody D → Bool
  is_enabled was_active (shows_pair first second) = was_active
  is_enabled was_active _ = true

  -- There is nothing to press where the rendering throws.
  abbrev pub press_body :
      (rendered now : ℤ) → MarketView D → Result (CardBody D) → CardPress → Option BetOpening
  press_body rendered now market (ok body) p =
      if is_enabled (is_market_active rendered market) body && is_market_active now market
      then target market body p
      else none
  press_body rendered now market _ p = none

module _ (N : Numbers) where
  open N use {D, zero, gt, to_number, minus}

  -- The comparison of a with b is positive: b has the higher price, or the lower position.
  abbrev pub comes_after : OutcomeSort → Outcome D → Outcome D → Bool
  comes_after by_price a b = gt (to_number (minus b.price_yes a.price_yes)) zero
  comes_after by_position a b = ltb_ℤ b.position a.position

  unfoldable pub sorted_outcomes : MarketView D → List (Outcome D)
  sorted_outcomes market = sort (comes_after market.outcome_sort) market.outcomes

  unfoldable pub top_outcomes : MarketView D → List (Outcome D)
  top_outcomes market = take 2 (sorted_outcomes market)

  abbrev pub open_body : MarketView D → Result (CardBody D)
  open_body market =
      if market.is_binary then pair_body market.outcomes else ok (shows_rows (top_outcomes market))

  abbrev pub body_at : MarketView D → MarketStatus → Result (CardBody D)
  body_at market resolved = resolved_body market.outcomes market.resolution
  body_at market _ = open_body market

  unfoldable pub card_body : MarketView D → Result (CardBody D)
  card_body market = body_at market market.status

  -- A press at the time `now` on a card that was rendered at another.
  unfoldable pub press_on_card : (rendered now : ℤ) → MarketView D → CardPress → Option BetOpening
  press_on_card rendered now market p = press_body rendered now market (card_body market) p
