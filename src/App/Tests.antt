-- ===== src/App/Tests.antt =====
-- The client's state and its requests at concrete messages.
use seer.Samples.{thousandths, even_market}
use seer.Common.{
  ℕ, ◌≡◌, ◌≢◌, refl, subst, String, none, some, List, [], ◌∷◌, lookup, str_eq, Bool-cases, inl, inr,
}
use mathlib.Core.Option.{some-injective}
use seer.Common.Int.{pos}
use seer.Common.Result.{ok}
use seer.Definitions.{MarketView}
use seer.Messages.{ChatMessage, system}
use seer.Stores.Bets.{initial}
use seer.Stores.Panels.{initial_online}
use seer.Socket.{
  Options, WsClientOptions, new_client, on_connect, off_connect, connect, connect_once, handle_open,
  handle_close, fire, schedule_reconnect, add, contains, remove,
}
use seer.App.{Event, markets_update, balance, chat, online, AppState, run}
use seer.App.Parts.{HaveOutcomes, IsRunOf}
use seer.App.Refines.{run-IsRunOf}
use seer.App.Feeds.{
  WsRequest, subscribe_markets_update, subscribe_online, subscribe_bets, subscribe_chat, card_asks,
  form_asks, card, bet_form, PageEvent, mounts, unmounts, opens, closes, fires, first_page,
  asked_by_open, page_run,
}
use seer.App.Feeds.Opened.{asked_by_open-map}

abbrev message : String → ChatMessage
message slug = record {
  id = "c";
  chat_slug = slug;
  content = "hello";
  created_at = pos 1;
  type = system;
  user = record { id = "u"; username = "bot"; profile_image_key = none };
}

abbrev start : AppState ℕ
start = record {
  markets = ("m", even_market) ∷ [];
  balances = ("USDT", record { currency = "USDT"; balance = 50; version = pos 1 }) ∷ [];
  bets = initial;
  chats = [];
  online_users = initial_online;
}

abbrev events : List (Event ℕ)
events =
    markets_update (pos 60) (record {
      market_id = "m";
      market_version = pos 5;
      total_volume = 5;
      outcomes = record { id = pos 7; quantity = 14000 } ∷ [];
    })
    ∷ chat (message "global")
    ∷ balance (record { currency = "USDT"; balance = 40; version = pos 2 })
    ∷ online (record { users_online_count = pos 12 })
    ∷ []

start-HaveOutcomes : HaveOutcomes start
unfolding lookup
start-HaveOutcomes id m e = elim (Bool-cases (str_eq "m" id)) [
  | inl same ↦
      let e' = (rw (same) at e) in
      subst (λ (k : MarketView ℕ). k.outcomes ≢ []) (some-injective _ _ e') (λ none_left. cc)
  | inr apart ↦ let e' = (rw (apart) at e) in cc
]

run-IsRunOf_example :
    (s' : AppState ℕ) × (run thousandths events start ≡ ok s')
    × HaveOutcomes s'
    × IsRunOf thousandths events start s'
run-IsRunOf_example = run-IsRunOf thousandths events start start-HaveOutcomes

abbrev backoff : Options → ℕ → ℕ
backoff o n = 500

abbrev written : WsRequest → String
written subscribe_markets_update = "markets"
written subscribe_online = "online"
written subscribe_bets = "bets"
written (subscribe_chat slug) = slug
written (card_asks id) = "marketID"
written (form_asks id) = "marketId"

abbrev options : WsClientOptions
options = record {
  url = "ws";
  reconnect_initial_delay = none;
  reconnect_max_delay = none;
  reconnect_attempts = none;
  debug = none;
}

-- A card and a form are mounted, the card goes, the connection is lost, and a second socket is made.
abbrev visit : List PageEvent
visit = opens ∷ mounts (card "m") ∷ mounts (bet_form "k") ∷ unmounts 0 ∷ closes ∷ fires ∷ []

second_socket : (page_run backoff visit (first_page options)).client.ws ≡ some 1
unfolding first_page new_client connect connect_once on_connect off_connect handle_open handle_close
    fire schedule_reconnect add contains remove
second_socket = refl

asked_by_open-map_example :
    asked_by_open written (page_run backoff visit (first_page options))
    ≡ (1, "markets") ∷ (1, "online") ∷ (1, "bets") ∷ (1, "global") ∷ (1, "marketId") ∷ []
asked_by_open-map_example = asked_by_open-map backoff written options visit 1 second_socket
