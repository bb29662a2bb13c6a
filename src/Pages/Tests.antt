-- ===== src/Pages/Tests.antt =====
-- The pages at concrete addresses.
use seer.Common.{
  ℕ, ◌≡◌, ◌≢◌, refl, leb, String, true, false, none, some, List, [], ◌∷◌, str_eq, suc,
}
use seer.Common.Int.{pos}
use seer.Common.Result.{ok}
use seer.Definitions.{Category}
use seer.Definitions.Searches.{MarketSearch, newest}
use seer.Forms.Checks.{StringChecks}
use seer.Pages.{
  PageParams, redirects, shows_nothing, shows_category, find_category, home_page, search_page,
  market_search_schema,
}
use seer.Queries.{market_search_key}
use seer.Pages.Shown.{
  prefetch_search, first_search, category_params, prefetch_search_missed, IsListing,
  home_page-IsListing,
}

abbrev size : String → ℕ
size String.[] = 0
size (String.◌∷◌ c s) = suc (size s)

abbrev checks : StringChecks
checks = record {
  at_least = λ n s. leb n (size s);
  at_most = λ n s. leb (size s) n;
  is_alphanumeric = λ s. true;
  is_email = λ s. false;
  same = λ a b. str_eq a b;
}

abbrev category : ℕ → String → Category
category id slug = record { id = pos id; slug = slug; label = slug; icon_url = "" }

abbrev featured : List Category
featured = category 1 "sport" ∷ category 2 "news" ∷ []

abbrev address : PageParams
address = record { q = some "cup"; category = some "news"; sort = some "newest"; status = none }

abbrev asked : MarketSearch
asked = record {
  query = some "cup";
  category_slug = some "news";
  status = none;
  sort = newest;
  page_size = pos 8;
  page = pos 1;
}

news_shown : home_page checks featured address ≡ ok (shows_category asked (category 2 "news"))
unfolding home_page find_category market_search_schema
news_shown = refl

home_page-IsListing_example : IsListing checks featured address asked (category 2 "news")
home_page-IsListing_example =
    home_page-IsListing checks featured address asked (category 2 "news") news_shown

-- A search for two letters shows nothing at all.
short_search :
    search_page checks featured
      (record { q = some "eu"; category = none; sort = none; status = none })
    ≡ shows_nothing
unfolding search_page market_search_schema
short_search = refl

-- A status that is no option leads away from the page.
paused_redirected :
    search_page checks featured
      (record { q = none; category = none; sort = none; status = some "paused" })
    ≡ redirects
unfolding search_page
paused_redirected = refl

abbrev news_search : MarketSearch
news_search = first_search (category 2 "news")

news_page :
    home_page checks featured (category_params (category 2 "news"))
    ≡ ok (shows_category news_search (category 2 "news"))
unfolding home_page find_category market_search_schema
news_page = refl

prefetch_search_missed_example :
    market_search_key (some (prefetch_search (category 2 "news")))
    ≢ market_search_key (some news_search)
prefetch_search_missed_example =
    prefetch_search_missed checks featured (category 2 "news") (category 2 "news") news_search
      news_page
