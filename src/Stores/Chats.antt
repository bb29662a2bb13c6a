-- ===== src/Stores/Chats.antt =====
-- frontend/seer/src/lib/stores/chats.ts: the messages of each chat room. `Record<string, …>` is an
-- association list; a slug is taken to be no name that every JavaScript object has ("constructor").
use mathlib.Core.List.{reverse-cons}
use seer.Common.{
  ℕ, zero, suc, sym, ◌∙◌, ltb→lt, ltb-false, ◌+◌, ◌%◌, ◌≤◌, ◌≡◌, refl, ap, String, Option, none,
  some, List, [], ◌∷◌, ◌++◌, arith, length, take, reverse, append_assoc, append-nil, take-cons-take,
  length-take, if◌then◌else◌, ltb, lookup, insert, lookup-insert, str_eq, Bool-cases, inl, inr,
  eq_iff,
}
use seer.Messages.{ChatMessage}

abbrev pub max_messages_per_chat : ℕ
max_messages_per_chat = 20

pub record Chat : Type 0 where
  pub messages : List ChatMessage
  pub parity : ℕ

abbrev pub ChatStore : Type 0
ChatStore = List (String × Chat)

-- `Array.prototype.pop`, for its effect.
pub pop {ℓ} : {A : Type ℓ} → List A → List A
pop [] = []
pop (x ∷ []) = []
pop (x ∷ y ∷ l) = x ∷ pop (y ∷ l)

-- `state.chats[slug]`, which is first set to an empty chat if it is missing.
pub chat_or_new : Option Chat → Chat
chat_or_new none = record { messages = []; parity = 0 }
chat_or_new (some c) = c

pub update_chat : ChatMessage → Chat → Chat
unfolding pop
update_chat message chat =
    let chat_messages = message ∷ chat.messages in
    record {
      parity = (chat.parity + 1) % 2;
      messages =
          if ltb max_messages_per_chat (length chat_messages)
          then pop chat_messages
          else chat_messages;
    }

pub add_chat_message : ChatMessage → ChatStore → ChatStore
add_chat_message message chats =
    let slug = message.chat_slug in
    insert slug (update_chat message (chat_or_new (lookup slug chats))) chats

abbrev pub run : List ChatMessage → ChatStore → ChatStore
run [] s = s
run (m ∷ ms) s = run ms (add_chat_message m s)

-- The messages of one room.
abbrev pub room : String → List ChatMessage → List ChatMessage
room slug [] = []
room slug (m ∷ ms) = if str_eq m.chat_slug slug then m ∷ room slug ms else room slug ms

-- What the store holds of a room whose messages are `ms`, newest first.
abbrev pub shown : List ChatMessage → Option Chat
shown [] = none
shown (m ∷ ms) =
    some (record { messages = take max_messages_per_chat (m ∷ ms); parity = length (m ∷ ms) % 2 })

module _ {ℓ} {A : Type ℓ} where
  pop_lem : (n : ℕ) (l : List A) → length l ≡ suc n → pop l ≡ take n l
  unfolding pop
  pop_lem n [] e = absurd (omega arith)
  pop_lem zero (x ∷ []) e = refl
  pop_lem (suc n) (x ∷ []) e = absurd (omega arith)
  pop_lem zero (x ∷ y ∷ l) e = absurd (omega arith)
  pop_lem (suc n) (x ∷ y ∷ l) e = ap (λ m. x ∷ m) (pop_lem n (y ∷ l) (omega arith))

  take_short : (n : ℕ) (l : List A) → length l ≤ n → take n l ≡ l
  take_short zero [] h = refl
  take_short zero (x ∷ l) h = absurd (omega arith)
  take_short (suc n) [] h = refl
  take_short (suc n) (x ∷ l) h = ap (λ m. x ∷ m) (take_short n l (omega arith))

  -- `unshift`, then `pop` if the list is too long.
  bounded-unshift :
      (n : ℕ) (x : A) (l : List A)
      → (if ltb n (length (x ∷ take n l)) then pop (x ∷ take n l) else x ∷ take n l)
        ≡ take n (x ∷ l)
  bounded-unshift n x l = elim (Bool-cases (ltb n (length (x ∷ take n l)))) [
    | inl long ↦
        let full : length (x ∷ take n l) ≡ suc n =
          omega (arith, ltb→lt n (length (x ∷ take n l)) long, length-take n l) in
        rw (long, pop_lem n (x ∷ take n l) full) (take-cons-take n x l)
    | inr short ↦
        let fits : length (x ∷ take n l) ≤ n = ltb-false n (length (x ∷ take n l)) short in
        rw short (sym (take_short n (x ∷ take n l) fits) ∙ take-cons-take n x l)
  ]

update_chat-shown :
    (m : ChatMessage) (ms : List ChatMessage)
    → some (update_chat m (chat_or_new (shown ms))) ≡ shown (m ∷ ms)
unfolding update_chat chat_or_new
update_chat-shown m [] = refl
update_chat-shown m (k ∷ ms) =
    let parity : (length (k ∷ ms) % 2 + 1) % 2 ≡ length (m ∷ k ∷ ms) % 2 = omega arith in
    cc (bounded-unshift max_messages_per_chat m (k ∷ ms), parity)

-- One message changes its own room alone.
add_chat_message-shown :
    (slug : String) (m : ChatMessage) (s : ChatStore) (ms : List ChatMessage)
    → ((r : String) → lookup r s ≡ shown (room r ms))
    → lookup slug (add_chat_message m s) ≡ shown (room slug (m ∷ ms))
unfolding add_chat_message
add_chat_message-shown slug m s ms h = elim (Bool-cases (str_eq m.chat_slug slug)) [
  | inl own ↦
      let e : m.chat_slug ≡ slug = (eq_iff _ _).0 own in
      let here : lookup m.chat_slug s ≡ shown (room slug ms) =
        h m.chat_slug ∙ ap (λ r. shown (room r ms)) e in
      rw (lookup-insert, own, here) (update_chat-shown m (room slug ms))
  | inr other ↦ rw (lookup-insert, other) (h slug)
]

room-append :
    (slug : String) (ms ks : List ChatMessage) → room slug (ms ++ ks) ≡ room slug ms ++ room slug ks
room-append slug [] ks = refl
room-append slug (m ∷ ms) ks = elim (Bool-cases (str_eq m.chat_slug slug)) [
  | inl own ↦ rw own (ap (λ l. m ∷ l) (room-append slug ms ks))
  | inr other ↦ rw other (room-append slug ms ks)
]

run-shown :
    (ms : List ChatMessage) (s : ChatStore) (ks : List ChatMessage)
    → ((r : String) → lookup r s ≡ shown (room r ks))
    → (slug : String) → lookup slug (run ms s) ≡ shown (room slug (reverse ms ++ ks))
run-shown [] s ks h slug = h slug
run-shown (m ∷ ms) s ks h slug =
    rw (reverse-cons m ms, append_assoc (reverse ms) (m ∷ []) ks)
      (run-shown ms (add_chat_message m s) (m ∷ ks) (λ r. add_chat_message-shown r m s ks h) slug)

-- After any sequence of messages, a room that had some shows the twenty newest of its own, newest
-- first, with the parity of their number, and a room that had none is not there.
pub run_shows_rooms :
    (ms : List ChatMessage) (slug : String)
    → lookup slug (run ms []) ≡ shown (room slug (reverse ms))
unfolding lookup
run_shows_rooms ms slug = rw (append-nil (reverse ms)) at (run-shown ms [] [] (λ r. refl) slug)
