-- ===== src/Queries.antt =====
-- frontend/seer/src/lib/queries, lib/meta.ts and app/ReactQueryProvider.tsx: the keys of the query cache,
-- the next page of a list, and the client of the cache. The cache itself is a third-party library's.
pub mod Names
pub mod Keys
pub mod Paging
mod Tests
use mathlib.Core.Option
use seer.Common.{
  ℕ, ◌*◌, ◌^◌, min, String, Bool, true, false, ◌&&◌, Option, none, some, List, [], ◌∷◌,
  if◌then◌else◌,
}
use seer.Common.Int.{ℤ, pos, ltb_ℤ, eqb_ℤ, suc_ℤ}
use seer.Definitions.{Metadata}
use seer.Definitions.Searches.{UserBetSearch, CommentSearch, MarketSearch}
use seer.Api.Markets.{filter_name, bet_sort_name, sort_dir_name, sort_name, status_name}

-- A part of a key: a text, a number, or `undefined`.
pub data KeyPart : Type 0 where
  text : String → KeyPart
  number : ℤ → KeyPart
  undefined : KeyPart

abbrev pub text_or : Option String → String → KeyPart
text_or none d = text d
text_or (some s) d = text s

abbrev pub number_or : Option ℤ → String → KeyPart
number_or none d = text d
number_or (some i) d = number i

abbrev pub text_part : Option String → KeyPart
text_part none = undefined
text_part (some s) = text s

unfoldable pub bet_search_key : Option UserBetSearch → List KeyPart
bet_search_key none = text "userBets" ∷ text "invalid" ∷ []
bet_search_key (some search) =
    text "userBets"
    ∷ text "query"
    ∷ text "marketId"
    ∷ text_or search.market_id "all"
    ∷ text "status"
    ∷ text_or (Option.map filter_name search.status) "all"
    ∷ text "sort"
    ∷ text (bet_sort_name search.sort)
    ∷ text "sortDir"
    ∷ text (sort_dir_name search.sort_dir)
    ∷ []

-- Of the search, the market and the parent.
unfoldable pub comment_search_key : String → Option ℤ → List KeyPart
comment_search_key market_id parent_id =
    text "comment"
    ∷ text "marketId"
    ∷ text market_id
    ∷ text "parentId"
    ∷ number_or parent_id "root"
    ∷ []

unfoldable pub market_search_key : Option MarketSearch → List KeyPart
market_search_key none = text "market" ∷ text "invalid" ∷ []
market_search_key (some search) =
    text "market"
    ∷ text "query"
    ∷ text_part search.query
    ∷ text "category"
    ∷ text_part search.category_slug
    ∷ text "sort"
    ∷ text (sort_name search.sort)
    ∷ text "status"
    ∷ text_part (Option.map status_name search.status)
    ∷ text "pageSize"
    ∷ number search.page_size
    ∷ text "page"
    ∷ number search.page
    ∷ []

unfoldable pub get_next_page_param_from_metadata : Metadata → Option ℤ
get_next_page_param_from_metadata meta =
    if ltb_ℤ meta.current_page meta.last_page then some (suc_ℤ meta.current_page) else none

-- The milliseconds before a retry.
unfoldable pub retry_delay : ℕ → ℕ
retry_delay attempt = min (500 * 2 ^ attempt) 30000

-- `getQueryClient`: the client, and the client of the browser after the call. `fresh` is a new one.
unfoldable pub get_query_client :
    {A : Type 0}
    → (is_server : Bool) → (fresh : A) → (browser_query_client : Option A) → A × Option A
get_query_client true fresh client = (fresh, client)
get_query_client false fresh none = (fresh, some fresh)
get_query_client false fresh (some client) = (client, some client)
