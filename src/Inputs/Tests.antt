-- ===== src/Inputs/Tests.antt =====
-- The fields at concrete inputs.
use seer.Samples.{outcome}
use seer.Common.{ℕ, ◌≡◌, ◌⊎◌, refl, ltb, String, true, false, none, some, List, [], ◌∷◌, arith}
use seer.Common.Result.{ok}
use seer.Definitions.{Outcome}
use seer.PriceInput.{Text}
use seer.Socket.{WsClient, new_client}
use seer.Inputs.{trim_units_start, trim_units_end}
use seer.Inputs.ChatField.{
  SendChat, send_enabled, handle_send, IsSendable, IsSent, handle_send-IsSent,
}
use seer.Inputs.SearchField.{
  SearchEvent, changes, fires, clears, search_step, search_run, initial_search, InSync,
  search_run-InSync, top_outcome, IsHighest, top_outcome-IsHighest,
}

abbrev client : WsClient ℕ
client = new_client (record {
  url = "ws";
  reconnect_initial_delay = none;
  reconnect_max_delay = none;
  reconnect_attempts = none;
  debug = none;
})

abbrev hello : Text
hello = b'h' ∷ b'i' ∷ []

abbrev written : SendChat → String
written m = "chat"

handle_send-IsSent_example :
    (IsSendable hello
      × IsSent
          (λ s. true)
          written
          (some client)
          hello
          (handle_send (λ s. true) written (some client) hello))
    ⊎ ((IsSendable hello → ⊥)
        × (handle_send (λ s. true) written (some client) hello ≡ (none, hello)))
handle_send-IsSent_example = handle_send-IsSent (λ s. true) written (some client) hello

-- Without a socket the text is gone and nothing was sent.
lost_text : handle_send {Delay = ℕ} (λ s. true) written none hello ≡ (none, [])
unfolding handle_send send_enabled trim_units_start trim_units_end
lost_text = refl

-- Two blanks are not sent.
blank_kept :
    handle_send (λ s. true) written (some client) (b' ' ∷ b' ' ∷ []) ≡ (none, b' ' ∷ b' ' ∷ [])
unfolding handle_send send_enabled trim_units_start trim_units_end
blank_kept = refl

-- A text that is cleared before the debounced call runs is searched all the same.
abbrev cleared : List SearchEvent
cleared = changes hello ∷ clears ∷ fires ∷ []

cleared_query_back : (search_run cleared initial_search).query ≡ hello
unfolding search_step
cleared_query_back = refl

search_run-InSync_example : InSync (search_run cleared initial_search)
search_run-InSync_example = search_run-InSync cleared

abbrev priced : ℕ → ℕ → Outcome ℕ
priced id price = record (outcome id 0) { price_yes = price }

abbrev offered : List (Outcome ℕ)
offered = priced 7 200 ∷ priced 8 500 ∷ priced 9 300 ∷ []

more-asym : (a b : ℕ) → ltb b a ≡ true → ltb a b ≡ false
more-asym a b e = ground arith

more_trans : (a b c : ℕ) → ltb b a ≡ false → ltb c b ≡ false → ltb c a ≡ false
more_trans a b c e e' = ground arith

top_outcome-IsHighest_example :
    (top : Outcome ℕ) × (top_outcome (λ a b. ltb b a) offered ≡ ok top)
    × IsHighest (λ a b. ltb b a) offered top
top_outcome-IsHighest_example =
    top_outcome-IsHighest (λ a b. ltb b a) more-asym more_trans offered (λ e. cc)
