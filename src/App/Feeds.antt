-- ===== src/App/Feeds.antt =====
-- frontend/seer/src/app/WsProvider.tsx with the effects of ui/markets/home/MarketCard.tsx and ui/bet/BetModal.tsx: what
-- the client asks of the server when the socket opens. The provider's handler is number 0 and the k-th mounted
-- component's is number k + 1; `stringify` is JSON.stringify.
pub mod Opened
use seer.Common.{
  ℕ, zero, suc, String, Bool, true, false, Option, none, some, List, [], ◌∷◌, ◌++◌, map, get_elem?,
  length,
}
use seer.Common.Int.{ℤ}
use seer.Socket.{
  WsClient, WsClientOptions, Options, new_client, on_connect, off_connect, handle_open,
  handle_close, fire, emit,
}

pub data WsRequest : Type 0 where
  subscribe_markets_update subscribe_online subscribe_bets : WsRequest
  subscribe_chat : String → WsRequest
  card_asks : String → WsRequest  -- "get:market_state" with the payload { marketID }
  form_asks : String → WsRequest  -- "get:market_state" with the payload { marketId }

-- A component that asks for the state of a market: a card, or a form for a bet.
pub data Watcher : Type 0 where
  card bet_form : String → Watcher

abbrev pub asked_by_card : String → WsRequest
asked_by_card market_id = card_asks market_id

abbrev pub asked_by_form : String → WsRequest
asked_by_form market_id = form_asks market_id

abbrev pub asked_by : Watcher → WsRequest
asked_by (card market_id) = asked_by_card market_id
asked_by (bet_form market_id) = asked_by_form market_id

-- The handler of WsProvider.
abbrev pub subscriptions : List WsRequest
subscriptions =
    subscribe_markets_update ∷ subscribe_online ∷ subscribe_bets ∷ subscribe_chat "global" ∷ []

-- The client, and all cards and forms that were ever mounted.
pub record Page (Delay : Type 0) : Type 0 where
  pub client : WsClient Delay
  pub made : List Watcher

-- The k-th component is unmounted; the socket opens or closes; the timer fires.
pub data PageEvent : Type 0 where
  mounts : Watcher → PageEvent
  unmounts : ℕ → PageEvent
  opens closes fires : PageEvent

abbrev pub request_for : Option Watcher → List WsRequest
request_for none = []
request_for (some w) = asked_by w ∷ []

-- What a handler emits.
abbrev pub requests_of : List Watcher → ℕ → List WsRequest
requests_of made zero = subscriptions
requests_of made (suc k) = request_for (get_elem? made k)

abbrev pub all_requests : List Watcher → List ℕ → List WsRequest
all_requests made [] = []
all_requests made (h ∷ hs) = requests_of made h ++ all_requests made hs

abbrev pub all_sent : List (Option (ℕ × String)) → List (ℕ × String)
all_sent [] = []
all_sent (none ∷ l) = all_sent l
all_sent (some t ∷ l) = t ∷ all_sent l

module _ {Delay : Type 0} where
  -- The provider's effect, on a new client.
  unfoldable pub first_page : WsClientOptions → Page Delay
  first_page opts = record { client = on_connect 0 (new_client opts); made = [] }

  -- A component's effect: it emits, and listens.
  abbrev pub mounted : Watcher → Page Delay → Page Delay
  mounted w p = record {
    client = on_connect (suc (length p.made)) p.client;
    made = p.made ++ (w ∷ []);
  }

  abbrev pub asked_by_mount :
      (ℕ → Bool) → (WsRequest → String) → Watcher → Page Delay → Option (ℕ × String)
  asked_by_mount is_open stringify w p = emit is_open (stringify (asked_by w)) p.client

  -- The effect's cleanup.
  abbrev pub unmounted : ℕ → Page Delay → Page Delay
  unmounted k p = record p { client = off_connect (suc k) p.client }

  -- What goes out when the socket opens, and is then open.
  unfoldable pub asked_by_open : (WsRequest → String) → Page Delay → List (ℕ × String)
  asked_by_open stringify p = all_sent (
      map (λ r. emit (λ socket. true) (stringify r) p.client)
        (all_requests p.made (handle_open p.client).0))

  module _ (backoff : Options → ℕ → Delay) where
    abbrev pub page_step : PageEvent → Page Delay → Page Delay
    page_step (mounts w) p = mounted w p
    page_step (unmounts k) p = unmounted k p
    page_step opens p = record p { client = (handle_open p.client).1 }
    page_step closes p = record p { client = handle_close backoff p.client }
    page_step fires p = record p { client = fire p.client }

    abbrev pub page_run : List PageEvent → Page Delay → Page Delay
    page_run [] p = p
    page_run (e ∷ es) p = page_run es (page_step e p)
