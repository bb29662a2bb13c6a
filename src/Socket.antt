-- ===== src/Socket.antt =====
-- frontend/seer/src/socket/socket.ts: WSClient. The WebSocket, the timer, JSON.parse and the schemas'
-- safeParse belong to the browser and to zod: sockets are numbers in the order in which they are made, and
-- what parses is a parameter. A handler is the number of a function; that it runs is a call in a list, so
-- handlers that change the subscriptions while they run are not modelled.
pub mod Lines
pub mod Connection
pub mod Delivery
pub mod Delays
pub mod Subscriptions
mod Tests
use seer.Common.{
  ℕ, zero, suc, ◌+◌, ◌==◌, ltb, String, Bool, true, false, ◌&&◌, Option, none, some, List, [], ◌∷◌,
  ◌++◌, map, if◌then◌else◌, lookup, insert,
}

pub record Options : Type 0 where
  pub url : String
  pub reconnect_initial_delay : ℕ
  pub reconnect_max_delay : ℕ
  pub reconnect_attempts : ℕ  -- 0 for no limit
  pub debug : Bool

-- The argument of the constructor: all but the address may be missing.
pub record WsClientOptions : Type 0 where
  pub url : String
  pub reconnect_initial_delay : Option ℕ
  pub reconnect_max_delay : Option ℕ
  pub reconnect_attempts : Option ℕ
  pub debug : Option Bool

abbrev pub or_else : {A : Type 0} → Option A → A → A
or_else none d = d
or_else (some a) d = a

unfoldable pub with_defaults : WsClientOptions → Options
with_defaults opts = record {
  url = opts.url;
  reconnect_initial_delay = or_else opts.reconnect_initial_delay 500;
  reconnect_max_delay = or_else opts.reconnect_max_delay 30000;
  reconnect_attempts = or_else opts.reconnect_attempts 0;
  debug = or_else opts.debug true;
}

-- A `Set` of functions, in the order of insertion.
unfoldable pub contains : ℕ → List ℕ → Bool
contains h [] = false
contains h (g ∷ gs) = if g == h then true else contains h gs

unfoldable pub add : ℕ → List ℕ → List ℕ
unfolding contains
add h hs = if contains h hs then hs else hs ++ (h ∷ [])

unfoldable pub remove : ℕ → List ℕ → List ℕ
remove h [] = []
remove h (g ∷ gs) = let kept = remove h gs in if g == h then kept else g ∷ kept

abbrev pub handlers_or_none : Option (List ℕ) → List ℕ
handlers_or_none none = []
handlers_or_none (some hs) = hs

abbrev pub is_over : ℕ → ℕ → Bool
is_over max attempts = ltb 0 max && ltb max attempts

-- `Delay` is the type of the delays, which are floating-point numbers.
pub record WsClient (Delay : Type 0) : Type 0 where
  pub ws : Option ℕ
  pub made : ℕ  -- how many WebSockets have been made
  pub handlers : List (String × List ℕ)
  pub connect_handlers : List ℕ
  pub global_handlers : List ℕ
  pub reconnect_attempts : ℕ
  pub reconnect_timer : Option Delay
  pub options : Options

module _ {Delay : Type 0} where
  unfoldable pub connect_once : WsClient Delay → WsClient Delay
  connect_once c = record c { ws = some c.made; made = suc c.made }

  connect_unless : WsClient Delay → Option ℕ → WsClient Delay
  unfolding connect_once
  connect_unless c none = connect_once c
  connect_unless c (some socket) = c

  unfoldable pub connect : WsClient Delay → WsClient Delay
  unfolding connect_unless
  connect c = connect_unless c c.ws

  unfoldable pub new_client : WsClientOptions → WsClient Delay
  unfolding connect with_defaults
  new_client opts = connect (record {
    ws = none;
    made = 0;
    handlers = [];
    connect_handlers = [];
    global_handlers = [];
    reconnect_attempts = 0;
    reconnect_timer = none;
    options = with_defaults opts;
  })

  -- The handlers are run before the counter is reset.
  unfoldable pub handle_open : WsClient Delay → List ℕ × WsClient Delay
  handle_open c = (c.connect_handlers, record c { reconnect_attempts = 0 })

  -- `backoff o n` is the smaller of the initial delay times 1.5 to the n and the greatest delay. The last
  -- attempt that is allowed has been made if `is_over`.
  abbrev pub give_up_or_wait : (Options → ℕ → Delay) → Bool → WsClient Delay → WsClient Delay
  give_up_or_wait backoff true c = record c { reconnect_attempts = suc c.reconnect_attempts }
  give_up_or_wait backoff false c = record c {
    reconnect_attempts = suc c.reconnect_attempts;
    reconnect_timer = some (backoff c.options c.reconnect_attempts);
  }

  unfoldable pub schedule_reconnect : (Options → ℕ → Delay) → WsClient Delay → WsClient Delay
  schedule_reconnect backoff c =
      give_up_or_wait backoff (is_over c.options.reconnect_attempts (suc c.reconnect_attempts)) c

  unfoldable pub handle_close : (Options → ℕ → Delay) → WsClient Delay → WsClient Delay
  unfolding schedule_reconnect
  handle_close backoff c = schedule_reconnect backoff (record c { ws = none })

  -- The callback of the timer.
  unfoldable pub fire : WsClient Delay → WsClient Delay
  unfolding connect_once
  fire c = connect_once (record c { reconnect_timer = none })

  -- The handlers of a type, in the order in which they run.
  unfoldable pub subscribers : WsClient Delay → String → List ℕ
  subscribers c type = handlers_or_none (lookup type c.handlers)

  unfoldable pub on : String → ℕ → WsClient Delay → WsClient Delay
  unfolding subscribers add
  on type handler c = record c {
    handlers = insert type (add handler (subscribers c type)) c.handlers;
  }

  unfoldable pub off_in : String → ℕ → WsClient Delay → Option (List ℕ) → WsClient Delay
  unfolding remove
  off_in type handler c none = c
  off_in type handler c (some hs) = record c {
    handlers = insert type (remove handler hs) c.handlers;
  }

  unfoldable pub off : String → ℕ → WsClient Delay → WsClient Delay
  unfolding off_in
  off type handler c = off_in type handler c (lookup type c.handlers)

  unfoldable pub on_connect : ℕ → WsClient Delay → WsClient Delay
  unfolding add
  on_connect handler c = record c { connect_handlers = add handler c.connect_handlers }

  unfoldable pub off_connect : ℕ → WsClient Delay → WsClient Delay
  unfolding remove
  off_connect handler c = record c { connect_handlers = remove handler c.connect_handlers }

  unfoldable pub on_any : ℕ → WsClient Delay → WsClient Delay
  unfolding add
  on_any handler c = record c { global_handlers = add handler c.global_handlers }

  -- The socket that is told to close, if there is one.
  unfoldable pub disonnect : WsClient Delay → Option ℕ
  disonnect c = c.ws

  -- The text that is sent, and to which socket; `is_open` is `readyState === WebSocket.OPEN`.
  unfoldable pub emit : (ℕ → Bool) → String → WsClient Delay → Option (ℕ × String)
  emit is_open obj c = emit_on c.ws
    where
      emit_on : Option ℕ → Option (ℕ × String)
      emit_on none = none
      emit_on (some socket) = if is_open socket then some (socket, obj) else none

  -- The client is made once; `url` is NEXT_PUBLIC_WS_URL.
  unfoldable pub get_ws_client : String → Option (WsClient Delay) → WsClient Delay
  get_ws_client url none = new_client (record {
    url = url;
    reconnect_initial_delay = none;
    reconnect_max_delay = none;
    reconnect_attempts = none;
    debug = none;
  })
  get_ws_client url (some client) = client
