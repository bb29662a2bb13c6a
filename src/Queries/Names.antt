-- ===== src/Queries/Names.antt =====
-- The names that frontend/seer/src/lib/api.ts and lib/queries write into addresses and keys are different
-- for different values.
use seer.Common.{String, ◌≡◌, refl, sym, ap, ◌∙◌, Option, none, some, if◌then◌else◌, str_eq}
use seer.Definitions.{MarketStatus, BetStatus}
use seer.Definitions.Searches.{
  MarketSort, trending, volume, newest, ending_soon, BetFilter, only, any_resolved, BetSort,
  placed_at, wager, payout, event, SortDir, asc, desc,
}
use seer.Api.Markets.{filter_name, bet_sort_name, sort_dir_name, sort_name, status_name}

-- A function with a partial inverse is injective.
some-injective : {A : Type 0} {a b : A} → some a ≡ some b → a ≡ b
some-injective e = cc

pub injective_of_inverse :
    {A B : Type 0} (f : A → B) (g : B → Option A)
    → ((a : A) → g (f a) ≡ some a)
    → (a b : A) → f a ≡ f b
    → a ≡ b
injective_of_inverse f g inverse a b e = some-injective (sym (inverse a) ∙ ap g e ∙ inverse b)

abbrev bet_sort_of : String → Option BetSort
bet_sort_of s =
    if str_eq s "placedAt"
    then some (placed_at)
    else if str_eq s "wager"
    then some (wager)
    else if str_eq s "payout"
    then some (payout)
    else if str_eq s "event"
    then some (event)
    else none

bet_sort_of-bet_sort_name : (a : BetSort) → bet_sort_of (bet_sort_name a) ≡ some a
bet_sort_of-bet_sort_name (placed_at) = refl
bet_sort_of-bet_sort_name (wager) = refl
bet_sort_of-bet_sort_name (payout) = refl
bet_sort_of-bet_sort_name (event) = refl

pub bet_sort_name-injective : (a b : BetSort) → bet_sort_name a ≡ bet_sort_name b → a ≡ b
bet_sort_name-injective = injective_of_inverse bet_sort_name bet_sort_of bet_sort_of-bet_sort_name

abbrev sort_dir_of : String → Option SortDir
sort_dir_of s = if str_eq s "asc" then some (asc) else if str_eq s "desc" then some (desc) else none

sort_dir_of-sort_dir_name : (a : SortDir) → sort_dir_of (sort_dir_name a) ≡ some a
sort_dir_of-sort_dir_name (asc) = refl
sort_dir_of-sort_dir_name (desc) = refl

pub sort_dir_name-injective : (a b : SortDir) → sort_dir_name a ≡ sort_dir_name b → a ≡ b
sort_dir_name-injective = injective_of_inverse sort_dir_name sort_dir_of sort_dir_of-sort_dir_name

abbrev sort_of : String → Option MarketSort
sort_of s =
    if str_eq s "trending"
    then some (trending)
    else if str_eq s "volume"
    then some (volume)
    else if str_eq s "newest"
    then some (newest)
    else if str_eq s "endingSoon"
    then some (ending_soon)
    else none

sort_of-sort_name : (a : MarketSort) → sort_of (sort_name a) ≡ some a
sort_of-sort_name (trending) = refl
sort_of-sort_name (volume) = refl
sort_of-sort_name (newest) = refl
sort_of-sort_name (ending_soon) = refl

pub sort_name-injective : (a b : MarketSort) → sort_name a ≡ sort_name b → a ≡ b
sort_name-injective = injective_of_inverse sort_name sort_of sort_of-sort_name

abbrev pub status_of : String → Option MarketStatus
status_of s =
    if str_eq s "active"
    then some (MarketStatus.active)
    else if str_eq s "resolved"
    then some (MarketStatus.resolved)
    else if str_eq s "pending"
    then some (MarketStatus.pending)
    else if str_eq s "paused"
    then some (MarketStatus.paused)
    else none

status_of-status_name : (a : MarketStatus) → status_of (status_name a) ≡ some a
status_of-status_name (MarketStatus.active) = refl
status_of-status_name (MarketStatus.resolved) = refl
status_of-status_name (MarketStatus.pending) = refl
status_of-status_name (MarketStatus.paused) = refl

pub status_name-injective : (a b : MarketStatus) → status_name a ≡ status_name b → a ≡ b
status_name-injective = injective_of_inverse status_name status_of status_of-status_name

abbrev pub filter_of : String → Option BetFilter
filter_of s =
    if str_eq s "active"
    then some (only BetStatus.active)
    else if str_eq s "won"
    then some (only BetStatus.won)
    else if str_eq s "lost"
    then some (only BetStatus.lost)
    else if str_eq s "cashedOut"
    then some (only BetStatus.cashed_out)
    else if str_eq s "resolved"
    then some (any_resolved)
    else none

filter_of-filter_name : (a : BetFilter) → filter_of (filter_name a) ≡ some a
filter_of-filter_name (only BetStatus.active) = refl
filter_of-filter_name (only BetStatus.won) = refl
filter_of-filter_name (only BetStatus.lost) = refl
filter_of-filter_name (only BetStatus.cashed_out) = refl
filter_of-filter_name (any_resolved) = refl

pub filter_name-injective : (a b : BetFilter) → filter_name a ≡ filter_name b → a ≡ b
filter_name-injective = injective_of_inverse filter_name filter_of filter_of-filter_name
