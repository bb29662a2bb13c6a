-- ===== src/Definitions.antt =====
-- frontend/seer/src/lib/definitions.ts: the data that the client works on, after validation. D is
-- decimal.js's Decimal; a Date is its time in milliseconds.
pub mod Accounts
pub mod Comments
pub mod Searches
use seer.Common.{String, Option, List, Bool}
use seer.Common.Int.{ℤ}

pub data Timeframe : Type 0 where
  day week month all_time : Timeframe

pub record PriceChartDataPoint (D : Type 0) : Type 0 where
  pub date : ℤ
  pub timestamp : ℤ
  pub price : D

pub record PriceChart (D : Type 0) : Type 0 where
  pub timeframe : Timeframe
  pub prices : List (PriceChartDataPoint D)

pub record Outcome (D : Type 0) : Type 0 where
  pub id : ℤ
  pub name : String
  pub quantity : D
  pub position : ℤ
  pub price_yes : D
  pub price_no : D
  pub price_yes_normalized : D
  pub price_no_normalized : D
  pub price_charts : Option (List (PriceChart D))

pub data MarketStatus : Type 0 where
  active resolved pending paused : MarketStatus

pub data OutcomeSort : Type 0 where
  by_price by_position : OutcomeSort

pub record Category : Type 0 where
  pub id : ℤ
  pub slug : String
  pub label : String
  pub icon_url : String

pub record MarketResolution : Type 0 where
  pub id : Option ℤ
  pub market_id : String
  pub winning_outcome_id : ℤ
  pub created_at : ℤ

pub record MarketView (D : Type 0) : Type 0 where
  pub id : String
  pub name : String
  pub description : String
  pub is_binary : Bool
  pub img_key : Option String
  pub slug : String
  pub close_time : Option ℤ
  pub outcome_sort : OutcomeSort
  pub alpha : D
  pub cap_price : D
  pub total_volume : D
  pub categories : List Category
  pub outcomes : List (Outcome D)
  pub status : MarketStatus
  pub resolution : Option MarketResolution
  pub version : ℤ

pub record Metadata : Type 0 where
  pub current_page : ℤ
  pub page_size : ℤ
  pub first_page : ℤ
  pub last_page : ℤ
  pub total_records : ℤ

pub data Currency : Type 0 where
  usdt : Currency

pub record Balance (D : Type 0) : Type 0 where
  pub balance : D
  pub currency : Currency
  pub version : ℤ

pub data BetSide : Type 0 where
  y n : BetSide

pub data BetStatus : Type 0 where
  active won lost cashed_out : BetStatus

pub record Bet (D : Type 0) : Type 0 where
  pub id : String
  pub status : BetStatus
  pub price_paid : D
  pub payout : D
  pub cashed_out : Option D
  pub avg_price : D
  pub market_id : String
  pub market_name : String
  pub market_img_key : Option String
  pub outcome_id : ℤ
  pub side : BetSide
  pub outcome_name : String
  pub placed_at : ℤ

pub record PlaceBet (D : Type 0) : Type 0 where
  pub bet_amount : D
  pub min_wanted_gain : D
  pub market_id : String
  pub outcome_id : ℤ
  pub side : BetSide
  pub currency : Currency
  pub idempotency_key : String

pub record CashoutBet (D : Type 0) : Type 0 where
  pub bet_id : String
  pub min_wanted_gain : D
  pub idempotency_key : String
