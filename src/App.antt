-- ===== src/App.antt =====
-- frontend/seer/src/app/WsProvider.tsx: the effect that connects the socket with the cache and the stores. The handlers
-- themselves are in Live and Stores. What the components ask of the socket is in Feeds.
pub mod Parts
pub mod Refines
pub mod Feeds
mod Tests
use seer.Common.{String, Option, none, some, List, [], ◌∷◌, lookup, insert}
use seer.Common.Int.{ℤ}
use seer.Common.Result.{Result, ok, ◌>>=◌}
use seer.Definitions.{MarketView}
use seer.Messages.{BalanceUpdate, MarketUpdate, BetUpdate, ChatMessage, OnlineUpdate}
use seer.Numbers.{Numbers}
use seer.Live.{on_market_update, on_balance}
use seer.Stores.Bets.{BetStore, add_latest_bet, add_high_bet}
use seer.Stores.Chats.{ChatStore, add_chat_message}
use seer.Stores.Panels.{OnlineStore, update_online_count}

-- A message that the socket's client hands to a handler; one for a market with the time of its arrival.
pub data Event (D : Type 0) : Type 0 where
  markets_update : ℤ → MarketUpdate D → Event D
  balance : BalanceUpdate D → Event D
  bets_latest bets_high : BetUpdate D → Event D
  chat : ChatMessage → Event D
  online : OnlineUpdate → Event D

-- The cached markets by their ids, the cached balances by their currencies, and the stores.
pub record AppState (D : Type 0) : Type 0 where
  pub markets : List (String × MarketView D)
  pub balances : List (String × BalanceUpdate D)
  pub bets : BetStore D
  pub chats : ChatStore
  pub online_users : OnlineStore

-- `setQueryData` with what its updater returned: nothing is cached if that is undefined.
unfoldable pub put_back {ℓ} :
    {A : Type ℓ} → String → Option A → List (String × A) → List (String × A)
put_back key none entries = entries
put_back key (some value) entries = insert key value entries

module _ (N : Numbers) where
  open N use {D}

  abbrev pub on_markets_update : ℤ → MarketUpdate D → AppState D → Result (AppState D)
  on_markets_update now u s = do
    market ← on_market_update N now u (lookup u.market_id s.markets)
    ok (record s { markets = put_back u.market_id market s.markets })

  unfoldable pub step : Event D → AppState D → Result (AppState D)
  step (markets_update now u) s = on_markets_update now u s
  step (balance u) s = ok (record s {
    balances = put_back u.currency (on_balance u (lookup u.currency s.balances)) s.balances;
  })
  step (bets_latest b) s = ok (record s { bets = add_latest_bet b s.bets })
  step (bets_high b) s = ok (record s { bets = add_high_bet b s.bets })
  step (chat m) s = ok (record s { chats = add_chat_message m s.chats })
  step (online u) s = ok (record s { online_users = update_online_count u s.online_users })

  abbrev pub run : List (Event D) → AppState D → Result (AppState D)
  run [] s = ok s
  run (e ∷ es) s = step e s >>= run es
