-- ===== src/Definitions/Searches.antt =====
-- frontend/seer/src/lib/definitions.ts and lib/api.ts: what the lists of markets, bets and comments are
-- searched by, and a page of each.
use seer.Common.{String, Option, List}
use seer.Common.Int.{ℤ}
use seer.Definitions.{MarketStatus, MarketView, Metadata, BetStatus, Bet}
use seer.Definitions.Comments.{Comment}

pub data MarketSort : Type 0 where
  trending volume newest ending_soon : MarketSort

pub record MarketSearch : Type 0 where
  pub query : Option String
  pub category_slug : Option String
  pub status : Option MarketStatus
  pub sort : MarketSort
  pub page_size : ℤ
  pub page : ℤ

-- A status of a bet, or `resolved` for all of won, lost and cashed out.
pub data BetFilter : Type 0 where
  only : BetStatus → BetFilter
  any_resolved : BetFilter

pub data BetSort : Type 0 where
  placed_at wager payout event : BetSort

pub data SortDir : Type 0 where
  asc desc : SortDir

pub record UserBetSearch : Type 0 where
  pub market_id : Option String
  pub status : Option BetFilter
  pub page_size : ℤ
  pub page : ℤ
  pub sort : BetSort
  pub sort_dir : SortDir

pub record CommentSearch : Type 0 where
  pub market_id : String
  pub parent_id : Option ℤ
  pub page_size : ℤ
  pub page : ℤ

pub record MarketSearchRes (D : Type 0) : Type 0 where
  pub markets : List (MarketView D)
  pub metadata : Metadata

pub record UserBetsRes (D : Type 0) : Type 0 where
  pub bets : List (Bet D)
  pub metadata : Metadata

pub record CommentsRes (D : Type 0) : Type 0 where
  pub comments : List (Comment D)
  pub metadata : Metadata
