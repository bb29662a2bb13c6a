-- ===== src/Socket/Tests.antt =====
-- The theorems on frontend/seer/src/socket/socket.ts at a concrete client: the delays are numbers, and the
-- body of an envelope is a text.
use seer.Common.{ℕ, ◌+◌, ◌↔◌, refl, String, none, some, [], ◌∷◌}
use seer.Socket.{
  Options, WsClientOptions, WsClient, new_client, connect, connect_once, handle_open, handle_close,
  schedule_reconnect, fire, on,
}
use seer.Socket.Lines.{lines}
use seer.Socket.Connection.{
  Reach, made_new, stepped, opens, closes, fires, failures_in_row, HasOneLife, Reach-HasOneLife,
}
use seer.Socket.Delivery.{
  Parsing, Invoked, OneOf, IsAccounted, handle_message, handle_message-OneOf_iff,
}

abbrev delays : Options → ℕ → ℕ
delays o n = o.reconnect_initial_delay + n

abbrev opts : WsClientOptions
opts = record {
  url = "ws://localhost";
  reconnect_initial_delay = none;
  reconnect_max_delay = none;
  reconnect_attempts = none;
  debug = none;
}

-- The first connection is lost, and the second one too after it was open: that is one failure in a row.
abbrev once_lost : WsClient ℕ
once_lost = handle_close delays (new_client opts)

abbrev again_lost : WsClient ℕ
again_lost = handle_close delays (handle_open (fire once_lost)).1

lost_again : Reach delays opts again_lost
unfolding new_client connect connect_once handle_open handle_close schedule_reconnect fire
lost_again =
    stepped
      (stepped
        (stepped (stepped made_new (closes (new_client opts) 0 refl)) (fires once_lost 500 refl))
        (opens (fire once_lost) 1 refl))
      (closes (handle_open (fire once_lost)).1 1 refl)

Reach-HasOneLife_example : HasOneLife delays (failures_in_row delays lost_again) again_lost
Reach-HasOneLife_example = Reach-HasOneLife delays lost_again

abbrev client : WsClient ℕ
client = on "chat" 3 (new_client opts)

-- A line is its own envelope, of the type "chat".
abbrev parsing : Parsing String String
parsing = record {
  envelope = λ line. some ("chat", line);
  schemas = ("chat", λ body. some body) ∷ [];
}

abbrev call : Invoked String
call = record { handler = 3; payload = "hello" }

handle_message-OneOf_iff_example :
    OneOf call (handle_message parsing client "hello")
    ↔ ((line : String) × OneOf line (lines "hello") × IsAccounted parsing client line call)
handle_message-OneOf_iff_example = handle_message-OneOf_iff parsing client "hello" call
