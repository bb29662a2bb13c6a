-- ===== src/Stores/BetsLive.antt =====
-- frontend/seer/src/ui/bet/bets_live/BetsLive.tsx and BetsLiveTable.tsx: the table of the live bets of Bets. The text of a
-- Decimal and the odds in the user's format are parameters.
use Prim.Native.String.{◌++◌}
use seer.Common.{
  ℕ, suc, zero, ◌+◌, ◌%◌, ◌<◌, ◌==◌, ◌≡◌, refl, Bool, Option, none, some, List, [], ◌∷◌, take,
  String, arith,
}
use seer.Common.Result.{Result}
use seer.Messages.{BetUpdate, WsUser}
use seer.Stores.Bets.{BetStore, add_latest_bet, add_high_bet}

pub data BetsTab : Type 0 where
  latest_tab high_tab : BetsTab

-- A cell of the user is its name, or "Hidden" if there is none; `is_marked` is the cells' background.
pub record BetRow : Type 0 where
  pub username : Option String
  pub market_name : String
  pub market_href : String
  pub outcome_name : String
  pub wager : String
  pub odds : Result String
  pub is_marked : Bool

abbrev pub username_of : Option WsUser → Option String
username_of none = none
username_of (some u) = some u.username

module _ {D : Type 0} (to_fixed : D → ℕ → String) (format_odds : D → Result String) where
  abbrev pub bet_row : ℕ → ℕ → BetUpdate D → BetRow
  bet_row parity index bet = record {
    username = username_of bet.user;
    market_name = bet.market_name;
    market_href = "/market/" ++ bet.market_id;
    outcome_name = bet.outcome_name;
    wager = to_fixed bet.wager 2;
    odds = format_odds bet.avg_price;
    is_marked = index % 2 == parity;
  }

  -- The rows from an index on.
  unfoldable pub bet_rows : ℕ → ℕ → List (BetUpdate D) → List BetRow
  bet_rows parity index [] = []
  bet_rows parity index (bet ∷ bets) = bet_row parity index bet ∷ bet_rows parity (suc index) bets

  abbrev pub bets_live : BetsTab → BetStore D → List BetRow
  bets_live latest_tab s = bet_rows s.latest_parity 0 s.latest_bets
  bets_live high_tab s = bet_rows s.high_parity 0 s.high_bets

  same_mark :
      (parity index : ℕ) → parity < 2 → (suc index % 2 == (parity + 1) % 2) ≡ (index % 2 == parity)
  same_mark parity index h = ground arith

  -- With the other parity, rows that are moved down by one are as they were.
  bet_rows_moved :
      (parity index : ℕ) (bets : List (BetUpdate D))
      → parity < 2
      → bet_rows ((parity + 1) % 2) (suc index) bets ≡ bet_rows parity index bets
  unfolding bet_rows
  bet_rows_moved parity index [] h = refl
  bet_rows_moved parity index (bet ∷ bets) h =
      rw (bet_rows_moved parity (suc index) bets h, same_mark parity index h) refl

  bet_rows-take :
      (parity index n : ℕ) (bets : List (BetUpdate D))
      → bet_rows parity index (take n bets) ≡ take n (bet_rows parity index bets)
  unfolding bet_rows
  bet_rows-take parity index zero bets = refl
  bet_rows-take parity index (suc n) [] = refl
  bet_rows-take parity index (suc n) (bet ∷ bets) =
      rw (bet_rows-take parity (suc index) n bets) refl

  shown_above :
      (parity : ℕ) (bet : BetUpdate D) (bets : List (BetUpdate D))
      → parity < 2
      → bet_rows ((parity + 1) % 2) 0 (take 10 (bet ∷ bets))
        ≡ bet_row ((parity + 1) % 2) 0 bet ∷ take 9 (bet_rows parity 0 bets)
  unfolding bet_rows
  shown_above parity bet bets h =
      rw (bet_rows_moved parity 0 (take 9 bets) h, bet_rows-take parity 0 9 bets) refl

  -- A new bet is shown above the rows that are there, of which nine stay as they are, their backgrounds included; the
  -- other table does not change.
  pub bets_live-add_latest_bet :
      (s : BetStore D) (bet : BetUpdate D)
      → s.latest_parity < 2
      → (bets_live latest_tab (add_latest_bet bet s)
          ≡ bet_row ((s.latest_parity + 1) % 2) 0 bet ∷ take 9 (bets_live latest_tab s))
        × (bets_live high_tab (add_latest_bet bet s) ≡ bets_live high_tab s)
  unfolding add_latest_bet
  bets_live-add_latest_bet s bet h = (shown_above s.latest_parity bet s.latest_bets h, refl)

  pub bets_live-add_high_bet :
      (s : BetStore D) (bet : BetUpdate D)
      → s.high_parity < 2
      → (bets_live high_tab (add_high_bet bet s)
          ≡ bet_row ((s.high_parity + 1) % 2) 0 bet ∷ take 9 (bets_live high_tab s))
        × (bets_live latest_tab (add_high_bet bet s) ≡ bets_live latest_tab s)
  unfolding add_high_bet
  bets_live-add_high_bet s bet h = (shown_above s.high_parity bet s.high_bets h, refl)
