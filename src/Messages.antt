-- ===== src/Messages.antt =====
-- frontend/seer/src/socket/messages.ts: the payloads that the server pushes, after validation.
-- D is decimal.js's Decimal; a Date is its time in milliseconds.
use seer.Common.{String, Option, List}
use seer.Common.Int.{ℤ}

pub record BalanceUpdate (D : Type 0) : Type 0 where
  pub currency : String
  pub balance : D
  pub version : ℤ

pub record OutcomeUpdate (D : Type 0) : Type 0 where
  pub id : ℤ
  pub quantity : D

pub record MarketUpdate (D : Type 0) : Type 0 where
  pub market_id : String
  pub market_version : ℤ
  pub total_volume : D
  pub outcomes : List (OutcomeUpdate D)

pub record WsUser : Type 0 where
  pub id : String
  pub username : String
  pub profile_image_key : Option String

pub data Author : Type 0 where
  user system : Author

pub record ChatMessage : Type 0 where
  pub id : String
  pub chat_slug : String
  pub content : String
  pub created_at : ℤ
  pub type : Author
  pub user : WsUser

pub record BetUpdate (D : Type 0) : Type 0 where
  pub id : String
  pub market_id : String
  pub market_name : String
  pub market_slug : String
  pub outcome_id : ℤ
  pub outcome_name : String
  pub wager : D
  pub payout : D
  pub avg_price : D
  pub placed_at : ℤ
  pub user : Option WsUser

pub record OnlineUpdate : Type 0 where
  pub users_online_count : ℤ
