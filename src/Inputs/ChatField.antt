-- ===== src/Inputs/ChatField.antt =====
-- frontend/seer/src/ui/chat/ChatDrawer.tsx: the field for a chat message.
use seer.Common.{
  ℕ, ◌≡◌, ◌≤◌, refl, String, Bool, true, false, ◌&&◌, Option, none, some, [], ◌∷◌, length, leb, ltb,
  if◌then◌else◌, Bool-cases, Option-cases, absurd_of_true, sym, ◌∙◌, ◌⊎◌, and-left, and-right,
  leb→le, ltb-false, ◌↔◌, ◌≢◌, inl, inr, arith,
}
use mathlib.Core.Option.{some-injective}
use seer.PriceInput.{Text}
use seer.Socket.{WsClient, emit}
use seer.Inputs.{trim_units}
use seer.Inputs.Blank.{IsBlank, trim_units-eq-nil_iff}

-- The message that is emitted, `send:chat`.
pub record SendChat : Type 0 where
  pub message : Text
  pub chat_slug : String

-- `inputValue.trim_units().length > 0 && inputValue.length <= 50`
unfoldable pub send_enabled : Text → Bool
send_enabled v = ltb 0 (length (trim_units v)) && leb (length v) 50

module _ {Delay : Type 0} (is_open : ℕ → Bool) (stringify : SendChat → String) where
  -- `ws?.emit`
  abbrev pub emit_on : Option (WsClient Delay) → String → Option (ℕ × String)
  emit_on none obj = none
  emit_on (some ws) obj = emit is_open obj ws

  -- What goes out, to which socket, and what is in the field afterwards.
  unfoldable pub handle_send : Option (WsClient Delay) → Text → Option (ℕ × String) × Text
  handle_send ws v =
      if send_enabled v
      then (emit_on ws (stringify (record { message = v; chat_slug = "global" })), [])
      else (none, v)

-- The text can be sent: it is at most fifty code units, not all of them white space.
pub record IsSendable (v : Text) : Type 0 where
  pub visible : IsBlank v → ⊥
  pub length_le : length v ≤ 50

le→leb : (a b : ℕ) → a ≤ b → leb a b ≡ true
le→leb a b h = ground arith

visible-length : (t : Text) → ltb 0 (length t) ≡ false → t ≡ []
visible-length [] e = refl
visible-length (c ∷ t) e = absurd (omega (arith, ltb-false 0 _ e))

length-visible : (t : Text) → ltb 0 (length t) ≡ true → t ≢ []
length-visible [] e = cc
length-visible (c ∷ t) e = cc

send_enabled-IsSendable : (v : Text) → (send_enabled v ≡ true) ↔ IsSendable v
unfolding send_enabled
send_enabled-IsSendable v = (
  (λ e. record {
    visible = λ b. length-visible (trim_units v) (and-left _ _ e) ((trim_units-eq-nil_iff v).1 b);
    length_le = leb→le _ _ (and-right _ _ e);
  }),
  λ h. elim (Bool-cases (ltb 0 (length (trim_units v)))) [
    | inl seen ↦ rw (seen, le→leb _ _ h.length_le) refl
    | inr blank ↦
        absurd (h.visible ((trim_units-eq-nil_iff v).0 (visible-length (trim_units v) blank)))
  ],
)

module _ {Delay : Type 0} (is_open : ℕ → Bool) (stringify : SendChat → String) where
  -- The socket is the client's and open.
  abbrev pub IsOpenOn : Option (WsClient Delay) → ℕ → Type 0
  IsOpenOn ws socket =
      (c : WsClient Delay) × (ws ≡ some c) × (c.ws ≡ some socket) × (is_open socket ≡ true)

  -- What a press does with a text that can be sent.
  pub record IsSent (ws : Option (WsClient Delay)) (v : Text) (r : Option (ℕ × String) × Text)
      : Type 0 where
    pub emptied : r.1 ≡ []
    pub goes_out :
        (socket : ℕ)
        → IsOpenOn ws socket
        → r.0 ≡ some (socket, stringify (record { message = v; chat_slug = "global" }))
    pub lost : ((socket : ℕ) → IsOpenOn ws socket → ⊥) → r.0 ≡ none

  emit_on-open :
      (ws : Option (WsClient Delay)) (obj : String) (socket : ℕ)
      → IsOpenOn ws socket
      → emit_on is_open stringify ws obj ≡ some (socket, obj)
  unfolding emit
  emit_on-open none obj socket (c, e, _, _) = cc
  emit_on-open (some d) obj socket (c, e, held, ready) =
      let held' : d.ws ≡ some socket = cc (some-injective _ _ e, held) in rw (held', ready) refl

  emit_on-lost :
      (ws : Option (WsClient Delay)) (obj : String)
      → ((socket : ℕ) → IsOpenOn ws socket → ⊥)
      → emit_on is_open stringify ws obj ≡ none
  unfolding emit
  emit_on-lost none obj h = refl
  emit_on-lost (some d) obj h = elim (Option-cases d.ws) [
    | inl nothing ↦ rw nothing refl
    | inr (socket, held) ↦ elim (Bool-cases (is_open socket)) [
      | inl ready ↦ absurd (h socket (d, refl, held, ready))
      | inr shut ↦ rw (held, shut) refl
    ]
  ]

  -- A press with a text of at most fifty code units, not all of them white space, empties the field; the text goes out
  -- for the global room if the client has an open socket, and is lost if it has none. With any other text a press
  -- does nothing.
  pub handle_send-IsSent :
      (ws : Option (WsClient Delay)) (v : Text)
      → (IsSendable v × IsSent ws v (handle_send is_open stringify ws v))
        ⊎ ((IsSendable v → ⊥) × (handle_send is_open stringify ws v ≡ (none, v)))
  unfolding handle_send
  handle_send-IsSent ws v =
      let obj = stringify (record { message = v; chat_slug = "global" }) in
      elim (Bool-cases (send_enabled v)) [
        | inl enabled ↦ rw enabled (
            inl (
              (send_enabled-IsSendable v).0 enabled,
              record {
                emptied = refl;
                goes_out = λ socket h. emit_on-open ws obj socket h;
                lost = λ h. emit_on-lost ws obj h;
              },
            ))
        | inr disabled ↦
            rw disabled
              (inr ((λ h. absurd_of_true (sym ((send_enabled-IsSendable v).1 h) ∙ disabled)), refl))
      ]
