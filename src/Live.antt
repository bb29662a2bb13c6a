-- ===== src/Live.antt =====
-- frontend/seer/src/app/WsProvider.tsx: what the payloads of the socket do to the cached markets
-- and balances. The handlers of the stores are in Stores.
pub mod Charts
pub mod Updates
pub mod Versions
pub mod Validated
pub mod Balances
mod Tests
use seer.Common.{ℕ, ◌*◌, Bool, true, false, Option, none, some, List, [], ◌∷◌, map, if◌then◌else◌}
use seer.Common.Int.{ℤ, eqb_ℤ, leb_ℤ, floor_div, scaled}
use seer.Common.Result.{Result, ok, thrown, ◌>>=◌}
use seer.Definitions.{
  Timeframe, day, week, month, all_time, PriceChartDataPoint, PriceChart, Outcome, MarketView,
}
use seer.Messages.{BalanceUpdate, OutcomeUpdate, MarketUpdate}
use seer.Numbers.{Numbers}
use seer.Lslmsr.Prices.{prices_for_market}

-- The length of a bucket in milliseconds, and the bucket that a time falls in.
abbrev pub bucket_size : Timeframe → ℕ
bucket_size day = 300000
bucket_size week = 3600000
bucket_size month = 14400000
bucket_size all_time = 86400000

abbrev pub bucket_date : Timeframe → ℤ → ℤ
bucket_date timeframe now = scaled (floor_div now (bucket_size timeframe)) (bucket_size timeframe)

module _ {D : Type 0} where
  -- The last point is replaced if it is in the bucket; else a point is pushed.
  unfoldable pub with_point : ℤ → D → List (PriceChartDataPoint D) → List (PriceChartDataPoint D)
  with_point bucket price [] = record { date = bucket; timestamp = bucket; price = price } ∷ []
  with_point bucket price (p ∷ []) =
      if eqb_ℤ p.date bucket
      then record p { price = price } ∷ []
      else p ∷ record { date = bucket; timestamp = bucket; price = price } ∷ []
  with_point bucket price (p ∷ q ∷ ps) = p ∷ with_point bucket price (q ∷ ps)

  abbrev pub updated_chart : ℤ → D → PriceChart D → PriceChart D
  updated_chart now price chart = record chart {
    prices = with_point (bucket_date chart.timeframe now) price chart.prices;
  }

  abbrev pub charts_after : ℤ → Outcome D → Option (List (PriceChart D)) → Outcome D
  charts_after now outcome none = outcome
  charts_after now outcome (some charts) = record outcome {
    price_charts = some (map (updated_chart now outcome.price_yes_normalized) charts);
  }

  abbrev pub with_charts : ℤ → Outcome D → Outcome D
  with_charts now outcome = charts_after now outcome outcome.price_charts

  -- `marketUpdate.outcomes.find`
  unfoldable pub find_update : ℤ → List (OutcomeUpdate D) → Option (OutcomeUpdate D)
  find_update id [] = none
  find_update id (u ∷ us) = if eqb_ℤ u.id id then some u else find_update id us

  abbrev pub requantified : Outcome D → Option (OutcomeUpdate D) → Outcome D
  requantified outcome none = outcome
  requantified outcome (some u) = record outcome { quantity = u.quantity }

  abbrev pub with_quantity : List (OutcomeUpdate D) → Outcome D → Outcome D
  with_quantity updates outcome = requantified outcome (find_update outcome.id updates)

  -- The handler of "balance", on the balance of the update's currency. A balance has the fields of an
  -- update; its currency is a string here.
  unfoldable pub on_balance : BalanceUpdate D → Option (BalanceUpdate D) → Option (BalanceUpdate D)
  on_balance update none = none
  on_balance update (some old) = if leb_ℤ update.version old.version then some old else some update

module _ (N : Numbers) where
  open N use {D}

  -- The market with the quantities of the update, with its prices, and with its charts.
  unfoldable pub apply_update : ℤ → MarketUpdate D → MarketView D → Result (MarketView D)
  apply_update now update old = do
    updated ← prices_for_market N (record old {
      outcomes = map (with_quantity update.outcomes) old.outcomes;
      total_volume = update.total_volume;
    })
    ok (record updated {
      outcomes = map (with_charts now) updated.outcomes;
      version = update.market_version;
    })

  -- The handler of "markets_update" at the time `now`, on a cached market.
  unfoldable pub on_known_market : ℤ → MarketUpdate D → MarketView D → Result (MarketView D)
  on_known_market now update old =
      if leb_ℤ update.market_version old.version then ok old else apply_update now update old

  unfoldable pub on_market_update :
      ℤ → MarketUpdate D → Option (MarketView D) → Result (Option (MarketView D))
  on_market_update now update none = ok none
  on_market_update now update (some old) = do
    market ← on_known_market now update old
    ok (some market)
