-- ===== src/Pages.antt =====
-- frontend/seer/src/app/(main): the pages that list markets, (markets)/page.tsx and search/page.tsx, at the parameters of
-- their address, and the searches that mybets/page.tsx, ui/markets/details/MarketBetSection.tsx and
-- ui/markets/home/categories/CategoriesMenu.tsx make. The featured categories are the server's answer; the checks of
-- the lengths of a string are those of Forms.Checks.
pub mod Shown
pub mod Preferences
pub mod Sessions
mod Tests
use seer.Common.{
  String, Bool, true, false, not, ◌&&◌, ◌||◌, Option, none, some, List, [], ◌∷◌, if◌then◌else◌,
  str_eq,
}
use seer.Common.Int.{ℤ, pos}
use seer.Common.Result.{Result, ok, thrown}
use seer.Definitions.{Category, MarketStatus, active, resolved, pending, paused, MarketView}
use seer.Definitions.Searches.{
  MarketSearch, MarketSort, trending, volume, newest, ending_soon, UserBetSearch, BetFilter, only,
  any_resolved, BetSort, placed_at, event, desc,
}
use seer.Definitions as Definitions
use seer.Forms.Checks.{StringChecks}

-- The parameters of the address.
pub record PageParams : Type 0 where
  pub q : Option String
  pub category : Option String
  pub sort : Option String
  pub status : Option String

-- `redirect('/')`, a page without content, or a list of markets, on the home page under a category.
pub data PageResult : Type 0 where
  redirects shows_nothing : PageResult
  shows : MarketSearch → PageResult
  shows_category : MarketSearch → Category → PageResult

unfoldable pub find_category : String → List Category → Option Category
find_category slug [] = none
find_category slug (c ∷ cs) = if str_eq c.slug slug then some c else find_category slug cs

-- `MarketSort` and `MarketStatus` of a text.
abbrev pub sort_of : String → Option MarketSort
sort_of s =
    if str_eq s "trending"
    then some trending
    else if str_eq s "volume"
    then some volume
    else if str_eq s "newest"
    then some newest
    else if str_eq s "endingSoon"
    then some ending_soon
    else none

abbrev pub status_of : String → Option MarketStatus
status_of s =
    if str_eq s "active"
    then some active
    else if str_eq s "resolved"
    then some resolved
    else if str_eq s "pending"
    then some pending
    else if str_eq s "paused"
    then some paused
    else none

-- `sortOptions.some` and `statusOptions.some`
abbrev pub is_sort_option : String → Bool
is_sort_option s =
    str_eq s "trending" || (str_eq s "volume" || (str_eq s "newest" || str_eq s "endingSoon"))

abbrev pub is_status_option : String → Bool
is_status_option s = str_eq s "active" || (str_eq s "pending" || str_eq s "resolved")

-- `!value || isOption(value)`
abbrev pub valid_or_missing : (String → Bool) → Option String → Bool
valid_or_missing is_option none = true
valid_or_missing is_option (some v) = str_eq v "" || is_option v

abbrev pub sort_schema : Option String → Option MarketSort
sort_schema none = some trending
sort_schema (some s) = sort_of s

abbrev pub optional_status : Option MarketStatus → Option (Option MarketStatus)
optional_status none = none
optional_status (some s) = some (some s)

abbrev pub status_schema : Option String → Option (Option MarketStatus)
status_schema none = some none
status_schema (some s) = optional_status (status_of s)

abbrev pub with_sort :
    Option String
    → Option String
    → Option MarketSort
    → Option (Option MarketStatus)
    → ℤ
    → Option MarketSearch
with_sort query slug (some sort) (some status) size = some (record {
  query = query;
  category_slug = slug;
  status = status;
  sort = sort;
  page_size = size;
  page = pos 1;
})
with_sort query slug _ _ size = none

abbrev pub are_options : PageParams → Bool
are_options p = valid_or_missing is_sort_option p.sort && valid_or_missing is_status_option p.status

abbrev pub parsed_home : Category → Option MarketSearch → PageResult
parsed_home category none = shows_nothing
parsed_home category (some search) = shows_category search category

-- `categories[0].slug` throws if there is no category.
abbrev pub slug_or_first : Option String → List Category → Result String
slug_or_first (some slug) categories = ok slug
slug_or_first none [] = thrown
slug_or_first none (c ∷ cs) = ok c.slug

abbrev pub parsed_search : Option MarketSearch → PageResult
parsed_search none = shows_nothing
parsed_search (some search) = shows search

abbrev pub is_category_or_missing : List Category → Option String → Bool
is_category_or_missing categories none = true
is_category_or_missing categories (some slug) =
    str_eq slug "" || is_found (find_category slug categories)
  where
    is_found : Option Category → Bool
    is_found none = false
    is_found (some c) = true

module _ (Z : StringChecks) where
  open Z use {at_least, at_most}

  abbrev pub query_schema : Option String → Bool
  query_schema none = true
  query_schema (some q) = at_least 3 q && at_most 50 q

  abbrev pub slug_schema : Option String → Bool
  slug_schema none = true
  slug_schema (some s) = at_least 1 s && at_most 20 s

  -- `MarketSearchSchema.safeParse`, for a page size that it accepts and the first page.
  unfoldable pub market_search_schema : PageParams → Option String → ℤ → Option MarketSearch
  market_search_schema p slug size =
      if query_schema p.q && slug_schema slug
      then with_sort p.q slug (sort_schema p.sort) (status_schema p.status) size
      else none

  abbrev pub home_of : PageParams → String → Option Category → PageResult
  home_of p slug none = redirects
  home_of p slug (some category) =
      if are_options p
      then parsed_home category (market_search_schema p (some slug) (pos 8))
      else redirects

  abbrev pub home_at : List Category → PageParams → Result String → Result PageResult
  home_at categories p (ok slug) = ok (home_of p slug (find_category slug categories))
  home_at categories p _ = thrown

  unfoldable pub home_page : List Category → PageParams → Result PageResult
  home_page categories p = home_at categories p (slug_or_first p.category categories)

  unfoldable pub search_page : List Category → PageParams → PageResult
  search_page categories p =
      if is_category_or_missing categories p.category && are_options p
      then parsed_search (market_search_schema p p.category (pos 6))
      else redirects

-- The bets that the section of a market lists, and those of the two tabs of mybets.
abbrev pub search_of_market : {D : Type 0} → MarketView D → UserBetSearch
search_of_market market = record {
  market_id = some market.id;
  status = some (only Definitions.BetStatus.active);
  page_size = pos 5;
  page = pos 1;
  sort = placed_at;
  sort_dir = desc;
}

pub data BetTab : Type 0 where
  active_bets settled_bets : BetTab

abbrev pub search_of_tab : BetTab → UserBetSearch
search_of_tab active_bets = record {
  market_id = none;
  status = some (only Definitions.BetStatus.active);
  page_size = pos 5;
  page = pos 1;
  sort = placed_at;
  sort_dir = desc;
}
search_of_tab settled_bets = record {
  market_id = none;
  status = some any_resolved;
  page_size = pos 5;
  page = pos 1;
  sort = event;
  sort_dir = desc;
}
