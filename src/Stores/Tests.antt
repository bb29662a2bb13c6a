-- ===== src/Stores/Tests.antt =====
-- Runs of the stores, and their theorems at concrete histories.
use seer.Common.{ℕ, ◌≡◌, String, none, List, [], ◌∷◌, reverse, lookup}
use seer.Common.Int.{pos}
use seer.Messages.{BetUpdate, ChatMessage, WsUser, system}
use seer.Stores.Bets.{BetEvent, latest, high, initial, Shows, run-Shows_newest, latests, highs}
use seer.Stores.Bets
use seer.Stores.Chats
use seer.Stores.Chats.{room, shown, run_shows_rooms}

abbrev bet : String → BetUpdate ℕ
bet id = record {
  id = id;
  market_id = "m";
  market_name = "Market";
  market_slug = "market";
  outcome_id = pos 1;
  outcome_name = "o";
  wager = 5;
  payout = 9;
  avg_price = 1;
  placed_at = pos 0;
  user = none;
}

abbrev live : List (BetEvent ℕ)
live = latest (bet "a") ∷ high (bet "b") ∷ latest (bet "c") ∷ []

run-Shows_newest_example : Shows (Bets.run live initial) (bet "c" ∷ bet "a" ∷ []) (bet "b" ∷ [])
run-Shows_newest_example = run-Shows_newest live

abbrev author : WsUser
author = record { id = "u"; username = "user"; profile_image_key = none }

abbrev message : String → String → ChatMessage
message slug content = record {
  id = content;
  chat_slug = slug;
  content = content;
  created_at = pos 0;
  type = system;
  user = author;
}

abbrev talk : List ChatMessage
talk = message "global" "a" ∷ message "other" "b" ∷ message "global" "c" ∷ []

run_shows_rooms_example : lookup "global" (Chats.run talk []) ≡ shown (room "global" (reverse talk))
run_shows_rooms_example = run_shows_rooms talk "global"
