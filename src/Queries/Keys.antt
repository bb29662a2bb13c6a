-- ===== src/Queries/Keys.antt =====
-- frontend/seer/src/lib/queries: which searches share an entry of the cache.
use mathlib.Core.Option
use seer.Common.{
  ℕ, zero, suc, str_eq, if◌then◌else◌, String, ◌≡◌, ◌≢◌, ◌↔◌, refl, sym, ap, Option, none, some,
  List, [], ◌∷◌,
}
use seer.Definitions.{MarketStatus, BetStatus}
use seer.Common.Int.{ℤ}
use seer.Definitions.Searches.{BetFilter, only, any_resolved, UserBetSearch, MarketSearch}
use seer.Api.Markets.{filter_name, status_name}
use seer.Queries.{
  KeyPart, text, number, undefined, text_or, number_or, text_part, bet_search_key,
  comment_search_key, market_search_key,
}
use seer.Queries.Names.{
  injective_of_inverse, filter_of, status_of, bet_sort_name-injective, sort_dir_name-injective,
  sort_name-injective,
}

abbrev nth : ℕ → List KeyPart → KeyPart
nth n [] = undefined
nth zero (k ∷ l) = k
nth (suc n) (k ∷ l) = nth n l

text-injective : {a b : String} → text a ≡ text b → a ≡ b
text-injective e = cc

text_or-injective :
    (a b : Option String) (d : String) → a ≢ some d → b ≢ some d → text_or a d ≡ text_or b d → a ≡ b
text_or-injective none none d p q e = refl
text_or-injective none (some b) d p q e = absurd (q (ap some (sym (text-injective e))))
text_or-injective (some a) none d p q e = absurd (p (ap some (text-injective e)))
text_or-injective (some a) (some b) d p q e = ap some (text-injective e)

number_or-injective : (a b : Option ℤ) (d : String) → number_or a d ≡ number_or b d → a ≡ b
number_or-injective none none d e = refl
number_or-injective none (some b) d e = cc
number_or-injective (some a) none d e = cc
number_or-injective (some a) (some b) d e = cc

text_part-injective : (a b : Option String) → text_part a ≡ text_part b → a ≡ b
text_part-injective none none e = refl
text_part-injective none (some b) e = cc
text_part-injective (some a) none e = cc
text_part-injective (some a) (some b) e = cc

number-injective : {a b : ℤ} → number a ≡ number b → a ≡ b
number-injective e = cc

abbrev filter_part : Option BetFilter → KeyPart
filter_part f = text_or (Option.map filter_name f) "all"

abbrev filter_of_part : KeyPart → Option (Option BetFilter)
filter_of_part (text s) = if str_eq s "all" then some none else Option.map some (filter_of s)
filter_of_part _ = none

filter_of_filter_part : (f : Option BetFilter) → filter_of_part (filter_part f) ≡ some f
filter_of_filter_part none = refl
filter_of_filter_part (some (only BetStatus.active)) = refl
filter_of_filter_part (some (only BetStatus.won)) = refl
filter_of_filter_part (some (only BetStatus.lost)) = refl
filter_of_filter_part (some (only BetStatus.cashed_out)) = refl
filter_of_filter_part (some any_resolved) = refl

abbrev status_part : Option MarketStatus → KeyPart
status_part s = text_part (Option.map status_name s)

abbrev status_of_part : KeyPart → Option (Option MarketStatus)
status_of_part (text s) = Option.map some (status_of s)
status_of_part undefined = some none
status_of_part (number i) = none

status_of_status_part : (s : Option MarketStatus) → status_of_part (status_part s) ≡ some s
status_of_status_part none = refl
status_of_status_part (some MarketStatus.active) = refl
status_of_status_part (some MarketStatus.resolved) = refl
status_of_status_part (some MarketStatus.pending) = refl
status_of_status_part (some MarketStatus.paused) = refl

-- The two searches ask for the same bets, whatever their pages.
pub record SameBets (a b : UserBetSearch) : Type 0 where
  pub market_id_eq : a.market_id ≡ b.market_id
  pub status_eq : a.status ≡ b.status
  pub sort_eq : a.sort ≡ b.sort
  pub sort_dir_eq : a.sort_dir ≡ b.sort_dir

-- Two searches of bets, of markets that are not called "all", have the same key exactly if they differ at
-- most in the page and its size.
pub bet_search_key-SameBets_iff :
    (a b : UserBetSearch)
    → a.market_id ≢ some "all"
    → b.market_id ≢ some "all"
    → (bet_search_key (some a) ≡ bet_search_key (some b)) ↔ SameBets a b
unfolding bet_search_key
bet_search_key-SameBets_iff a b p q = (
  λ e. record {
    market_id_eq = text_or-injective a.market_id b.market_id "all" p q (ap (nth 3) e);
    status_eq =
        injective_of_inverse filter_part filter_of_part filter_of_filter_part a.status b.status
          (ap (nth 5) e);
    sort_eq = bet_sort_name-injective a.sort b.sort (text-injective (ap (nth 7) e));
    sort_dir_eq = sort_dir_name-injective a.sort_dir b.sort_dir (text-injective (ap (nth 9) e));
  },
  λ s. cc (s.market_id_eq, s.status_eq, s.sort_eq, s.sort_dir_eq),
)

-- Two threads of comments have the same key exactly if they are of the same market and the same parent.
pub comment_search_key-eq_iff :
    (m n : String) (a b : Option ℤ)
    → (comment_search_key m a ≡ comment_search_key n b) ↔ ((m ≡ n) × (a ≡ b))
unfolding comment_search_key
comment_search_key-eq_iff m n a b = (
  λ e. (text-injective (ap (nth 2) e), number_or-injective a b "root" (ap (nth 4) e)),
  λ (e, f). cc (e, f),
)

-- Two searches of markets with the same key are the same search.
pub market_search_key-injective :
    (a b : MarketSearch) → market_search_key (some a) ≡ market_search_key (some b) → a ≡ b
unfolding market_search_key
market_search_key-injective a b e = cc (
  text_part-injective a.query b.query (ap (nth 2) e),
  text_part-injective a.category_slug b.category_slug (ap (nth 4) e),
  sort_name-injective a.sort b.sort (text-injective (ap (nth 6) e)),
  injective_of_inverse status_part status_of_part status_of_status_part a.status b.status
      (ap (nth 8) e),
  number-injective (ap (nth 10) e),
  number-injective (ap (nth 12) e),
)
