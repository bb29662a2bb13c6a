-- ===== src/Queries/Tests.antt =====
-- The theorems on frontend/seer/src/lib/queries and lib/meta.ts at concrete searches and lists.
use seer.Common.{◌≡◌, ◌↔◌, refl, none, some, [], ◌∷◌, arith}
use seer.Common.Int.{ℤ, pos}
use seer.Definitions.{Metadata}
use seer.Definitions.Searches.{UserBetSearch, any_resolved, placed_at, desc}
use seer.Queries.{retry_delay}
use seer.Queries.Paging.{AreLoaded, HasPages, upto, AreLoaded-upto_iff}

abbrev bets_of : ℤ → UserBetSearch
bets_of page = record {
  market_id = none;
  status = some any_resolved;
  page_size = pos 5;
  page = page;
  sort = placed_at;
  sort_dir = desc;
}

-- A page is its number, and there are three.
abbrev number_of : ℤ → ℤ
number_of i = i

abbrev metadata : ℤ → Metadata
metadata i = record {
  current_page = i;
  page_size = pos 5;
  first_page = pos 1;
  last_page = pos 3;
  total_records = pos 12;
}

three_pages : HasPages number_of metadata 3
three_pages k one k_le = (refl, refl)

AreLoaded-upto_iff_example :
    AreLoaded number_of metadata (pos 1 ∷ pos 2 ∷ pos 3 ∷ []) (pos 1)
    ↔ ((pos 1 ∷ pos 2 ∷ pos 3 ∷ []) ≡ upto number_of metadata 1 3)
AreLoaded-upto_iff_example =
    AreLoaded-upto_iff number_of metadata 3 three_pages (omega arith) (pos 1 ∷ pos 2 ∷ pos 3 ∷ [])

third_retry : retry_delay 3 ≡ 4000
unfolding retry_delay
third_retry = refl
