-- ===== src/Api/Markets.antt =====
-- frontend/seer/src/lib/api.ts: the functions of markets and bets, with their query strings.
use mathlib.Core.Option
use Prim.Native.String.{◌++◌}
use seer.Common.{String, List, [], ◌∷◌, Option, none, some, true, false}
use seer.Common.{◌++◌ as ◌+++◌}
use seer.Definitions.{
  MarketStatus, BetStatus, active, resolved, pending, paused, won, lost, cashed_out, MarketView,
  Category, PlaceBet, CashoutBet,
}
use seer.Definitions.Searches.{
  MarketSort, trending, volume, newest, ending_soon, MarketSearch, BetFilter, only, any_resolved,
  BetSort, placed_at, wager, payout, event, SortDir, asc, desc, UserBetSearch, MarketSearchRes,
  UserBetsRes,
}
use seer.Api.{
  Backend, Null, post, get, placed_bet, cashed_out_bet, truthy, Call, sending, asking, stated_or,
  command, reader,
}

abbrev pub sort_name : MarketSort → String
sort_name trending = "trending"
sort_name volume = "volume"
sort_name newest = "newest"
sort_name ending_soon = "endingSoon"

abbrev pub status_name : MarketStatus → String
status_name active = "active"
status_name resolved = "resolved"
status_name pending = "pending"
status_name paused = "paused"

abbrev pub bet_status_name : BetStatus → String
bet_status_name active = "active"
bet_status_name won = "won"
bet_status_name lost = "lost"
bet_status_name cashed_out = "cashedOut"

abbrev pub filter_name : BetFilter → String
filter_name (only s) = bet_status_name s
filter_name any_resolved = "resolved"

abbrev pub bet_sort_name : BetSort → String
bet_sort_name placed_at = "placedAt"
bet_sort_name wager = "wager"
bet_sort_name payout = "payout"
bet_sort_name event = "event"

abbrev pub sort_dir_name : SortDir → String
sort_dir_name asc = "asc"
sort_dir_name desc = "desc"

-- `if (value) params.append(key, value)`
abbrev pub append_some : String → Option String → List (String × String)
append_some key none = []
append_some key (some v) = (key, v) ∷ []

module _ {D : Type 0} (B : Backend D) where
  unfoldable pub market_params : MarketSearch → List (String × String)
  market_params search =
      append_some "query" (truthy search.query)
      +++ append_some "categorySlug" (truthy search.category_slug)
      +++ (("sort", sort_name search.sort) ∷ [])
      +++ append_some "status" (Option.map status_name search.status)
      +++ (("pageSize", B.number_to_string search.page_size)
          ∷ ("page", B.number_to_string search.page)
          ∷ [])

  unfoldable pub search_market : MarketSearch → Call B (MarketSearchRes D)
  search_market search =
      reader B (asking B get ("/market/search?" ++ B.to_string (market_params search)) true)
        (stated_or B "Failed to search markets") B.parse_markets "Invalid market search data"

  unfoldable pub get_featured_categories : Call B (List Category)
  get_featured_categories =
      reader B (record (asking B get "/market/categories/featured" false) { force_cache = true })
        (stated_or B "Failed to fetch categories") B.parse_categories "Invalid categories data"

  unfoldable pub get_market_by_id : String → Call B (MarketView D)
  get_market_by_id market_id =
      reader B (asking B get ("/market/search/" ++ market_id) false)
        (stated_or B "Failed to fetch market") B.parse_market "Invalid market data"

  unfoldable pub post_bet : PlaceBet D → Call B Null
  post_bet bet =
      command B (sending B post "/market/bet" (placed_bet bet)) (stated_or B "Failed to place bet")

  unfoldable pub bet_params : UserBetSearch → List (String × String)
  bet_params search =
      append_some "status" (Option.map filter_name search.status)
      +++ append_some "marketId" (truthy search.market_id)
      +++ (("sort", bet_sort_name search.sort)
          ∷ ("sortDir", sort_dir_name search.sort_dir)
          ∷ ("pageSize", B.number_to_string search.page_size)
          ∷ ("page", B.number_to_string search.page)
          ∷ [])

  unfoldable pub get_user_bets : UserBetSearch → Call B (UserBetsRes D)
  get_user_bets search =
      reader B (asking B get ("/my/bets?" ++ B.to_string (bet_params search)) true)
        (stated_or B "Failed to fetch user bets") B.parse_bets "Invalid user bets data"

  unfoldable pub cashout_bet : CashoutBet D → Call B Null
  cashout_bet bet =
      command B (sending B post "/market/cashout" (cashed_out_bet bet))
        (stated_or B "Failed to cashout bet")
