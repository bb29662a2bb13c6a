-- ===== src/App/Parts.antt =====
-- frontend/seer/src/app/WsProvider.tsx: each part of the client's state follows its own messages alone.
use seer.Common.{◌≡◌, ◌≢◌, String, some, List, [], ◌∷◌, lookup, str_eq, if◌then◌else◌}
use seer.Common.Int.{ℤ}
use seer.Common.Result.{ok}
use seer.Definitions.{MarketView}
use seer.Messages.{BalanceUpdate, MarketUpdate, ChatMessage}
use seer.Numbers.{Numbers}
use seer.Live.Versions as Versions
use seer.Live.Balances.{run_balance}
use seer.Stores.Bets as Bets
use seer.Stores.Chats as Chats
use seer.Stores.Panels.{OnlineStore}
use seer.App.{Event, markets_update, balance, bets_latest, bets_high, chat, online, AppState}

module _ {D : Type 0} where
  -- The messages of each part, in their order.
  abbrev pub updates_of : String → List (Event D) → List (ℤ × MarketUpdate D)
  updates_of id [] = []
  updates_of id (markets_update now u ∷ es) =
      if str_eq u.market_id id then (now, u) ∷ updates_of id es else updates_of id es
  updates_of id (_ ∷ es) = updates_of id es

  abbrev pub balances_of : String → List (Event D) → List (BalanceUpdate D)
  balances_of currency [] = []
  balances_of currency (balance u ∷ es) =
      if str_eq u.currency currency then u ∷ balances_of currency es else balances_of currency es
  balances_of currency (_ ∷ es) = balances_of currency es

  abbrev pub bets_of : List (Event D) → List (Bets.BetEvent D)
  bets_of [] = []
  bets_of (bets_latest b ∷ es) = Bets.latest b ∷ bets_of es
  bets_of (bets_high b ∷ es) = Bets.high b ∷ bets_of es
  bets_of (_ ∷ es) = bets_of es

  abbrev pub messages_of : List (Event D) → List ChatMessage
  messages_of [] = []
  messages_of (chat m ∷ es) = m ∷ messages_of es
  messages_of (_ ∷ es) = messages_of es

  abbrev pub last_online : List (Event D) → OnlineStore → OnlineStore
  last_online [] s = s
  last_online (online u ∷ es) s = last_online es (record { online_count = u.users_online_count })
  last_online (_ ∷ es) s = last_online es s

  -- Every cached market has outcomes.
  abbrev pub HaveOutcomes : AppState D → Type 0
  HaveOutcomes s = (id : String) (m : MarketView D) → lookup id s.markets ≡ some m → m.outcomes ≢ []

module _ (N : Numbers) where
  open N use {D}

  -- Each part of s' is what its own messages among the events make of that part of s.
  pub record IsRunOf (es : List (Event D)) (s s' : AppState D) : Type 0 where
    pub markets_eq :
        (id : String)
        → Versions.run N (updates_of id es) (lookup id s.markets) ≡ ok (lookup id s'.markets)
    pub balances_eq :
        (currency : String)
        → lookup currency s'.balances
          ≡ run_balance (balances_of currency es) (lookup currency s.balances)
    pub bets_eq : s'.bets ≡ Bets.run (bets_of es) s.bets
    pub chats_eq : s'.chats ≡ Chats.run (messages_of es) s.chats
    pub online_eq : s'.online_users ≡ last_online es s.online_users
