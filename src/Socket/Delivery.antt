-- ===== src/Socket/Delivery.antt =====
-- frontend/seer/src/socket/socket.ts: what reaches the handlers.
use seer.Common.{
  ℕ, ◌≡◌, ◌↔◌, ◌⊎◌, inl, inr, refl, sym, ap, subst, String, Option, none, some, List, [], ◌∷◌, ◌++◌,
  map, All, All-append, lookup, Option-cases,
}
use seer.Socket.{WsClient, subscribers}
use seer.Socket.Lines.{lines, type_prefix}

abbrev pub OneOf : {A : Type 0} → A → List A → Type 0
OneOf a [] = ⊥
OneOf a (b ∷ l) = (a ≡ b) ⊎ OneOf a l

module _ {A : Type 0} (a : A) where
  OneOf-left : (l m : List A) → OneOf a l → OneOf a (l ++ m)
  OneOf-left [] m i = elim i [ ]
  OneOf-left (b ∷ l) m (inl e) = inl e
  OneOf-left (b ∷ l) m (inr i) = inr (OneOf-left l m i)

  OneOf-right : (l m : List A) → OneOf a m → OneOf a (l ++ m)
  OneOf-right [] m i = i
  OneOf-right (b ∷ l) m i = inr (OneOf-right l m i)

  OneOf-map : {B : Type 0} (f : A → B) (l : List A) → OneOf a l → OneOf (f a) (map f l)
  OneOf-map f [] i = elim i [ ]
  OneOf-map f (b ∷ l) (inl e) = inl (ap f e)
  OneOf-map f (b ∷ l) (inr i) = inr (OneOf-map f l i)

  All_at : (Q : A → Type 0) (l : List A) → All Q l → OneOf a l → Q a
  All_at Q [] h i = elim i [ ]
  All_at Q (b ∷ l) (h, hs) (inl e) = subst Q (sym e) h
  All_at Q (b ∷ l) (h, hs) (inr i) = All_at Q l hs i

weaken : {A : Type 0} {Q R : A → Type 0} → ((a : A) → Q a → R a) → (l : List A) → All Q l → All R l
weaken f [] h = tt
weaken f (b ∷ l) (h, hs) = (f b h, weaken f l hs)

-- A call of a handler with a payload.
pub record Invoked (Payload : Type 0) : Type 0 where
  pub handler : ℕ
  pub payload : Payload

-- What JSON and zod do: the envelope of a line, if it parses and is one, and the schemas by prefix.
pub record Parsing (Json Payload : Type 0) : Type 0 where
  pub envelope : String → Option (String × Json)
  pub schemas : List (String × (Json → Option Payload))

module _ {Delay Json Payload : Type 0} (P : Parsing Json Payload) (c : WsClient Delay) where
  abbrev pub invoke_all : String → Option Payload → List (Invoked Payload)
  invoke_all type none = []
  invoke_all type (some payload) =
      map (λ h. record { handler = h; payload = payload }) (subscribers c type)

  abbrev pub validate : String → Json → Option (Json → Option Payload) → List (Invoked Payload)
  validate type payload none = []
  validate type payload (some schema) = invoke_all type (schema payload)

  abbrev pub dispatch : Option (String × Json) → List (Invoked Payload)
  dispatch none = []
  dispatch (some (type, payload)) = validate type payload (lookup (type_prefix type) P.schemas)

  -- The calls that the lines make, in their order; a line that makes none is passed over.
  unfoldable pub handle_lines : List String → List (Invoked Payload)
  handle_lines [] = []
  handle_lines (line ∷ ls) = dispatch (P.envelope line) ++ handle_lines ls

  unfoldable pub handle_message : String → List (Invoked Payload)
  handle_message text = handle_lines (lines text)

  -- A call that a line accounts for: the line is an envelope of a type, the schema of the type's prefix takes
  -- what it holds as the payload of the call, and the handler is one of that very type.
  pub record IsAccounted (line : String) (call : Invoked Payload) : Type 0 where
    pub type : String
    pub body : Json
    pub schema : Json → Option Payload
    pub envelope_eq : P.envelope line ≡ some (type, body)
    pub schema_eq : lookup (type_prefix type) P.schemas ≡ some schema
    pub payload_eq : schema body ≡ some call.payload
    pub subscribed : OneOf call.handler (subscribers c type)

  All-subscribed :
      (line type : String) (body : Json) (schema : Json → Option Payload) (payload : Payload)
      (hs : List ℕ)
      → P.envelope line ≡ some (type, body)
      → lookup (type_prefix type) P.schemas ≡ some schema
      → schema body ≡ some payload
      → ((h : ℕ) → OneOf h hs → OneOf h (subscribers c type))
      → All (IsAccounted line) (map (λ h. record { handler = h; payload = payload }) hs)
  All-subscribed line type body schema payload [] e s p sub = tt
  All-subscribed line type body schema payload (h ∷ hs) e s p sub = (
    record {
      type = type;
      body = body;
      schema = schema;
      envelope_eq = e;
      schema_eq = s;
      payload_eq = p;
      subscribed = sub h (inl refl);
    },
    All-subscribed line type body schema payload hs e s p (λ g i. sub g (inr i)),
  )

  dispatch-IsAccounted : (line : String) → All (IsAccounted line) (dispatch (P.envelope line))
  dispatch-IsAccounted line = elim (Option-cases (P.envelope line)) [
    | inl e ↦ rw e tt
    | inr ((type, body), e) ↦ elim (Option-cases (lookup (type_prefix type) P.schemas)) [
      | inl s ↦ rw (e, s) tt
      | inr (schema, s) ↦ elim (Option-cases (schema body)) [
        | inl p ↦ rw (e, s, p) tt
        | inr (payload, p) ↦
            rw (e, s, p)
              (All-subscribed line type body schema payload (subscribers c type) e s p (λ h i. i))
      ]
    ]
  ]

  handle_lines-IsAccounted :
      (ls : List String)
      → All (λ call. (line : String) × OneOf line ls × IsAccounted line call) (handle_lines ls)
  unfolding handle_lines
  handle_lines-IsAccounted [] = tt
  handle_lines-IsAccounted (line ∷ ls) =
      All-append _ (dispatch (P.envelope line)) (handle_lines ls)
        (weaken (λ call a. (line, inl refl, a)) (dispatch (P.envelope line))
          (dispatch-IsAccounted line))
        (weaken (λ call (l, i, a). (l, inr i, a)) (handle_lines ls) (handle_lines-IsAccounted ls))

  dispatch-delivers :
      (line : String) (call : Invoked Payload)
      → IsAccounted line call
      → OneOf call (dispatch (P.envelope line))
  dispatch-delivers line call a =
      rw (a.envelope_eq, a.schema_eq, a.payload_eq)
        (OneOf-map call.handler (λ h. record { handler = h; payload = call.payload })
          (subscribers c a.type) a.subscribed)

  handle_lines-delivers :
      (ls : List String) (line : String) (call : Invoked Payload)
      → OneOf line ls
      → IsAccounted line call
      → OneOf call (handle_lines ls)
  unfolding handle_lines
  handle_lines-delivers [] line call i a = elim i [ ]
  handle_lines-delivers (l ∷ ls) line call (inl e) a =
      OneOf-left call (dispatch (P.envelope l)) (handle_lines ls)
        (subst (λ t. OneOf call (dispatch (P.envelope t))) e (dispatch-delivers line call a))
  handle_lines-delivers (l ∷ ls) line call (inr i) a =
      OneOf-right call (dispatch (P.envelope l)) (handle_lines ls)
        (handle_lines-delivers ls line call i a)

  -- A message calls a handler with a payload exactly if one of its lines accounts for that: the line is an
  -- envelope of a type that the handler is subscribed to, and the schema of the type's prefix takes what it
  -- holds as that payload.
  pub handle_message-OneOf_iff :
      (text : String) (call : Invoked Payload)
      → OneOf call (handle_message text)
        ↔ ((line : String) × OneOf line (lines text) × IsAccounted line call)
  unfolding handle_message
  handle_message-OneOf_iff text call = (
    All_at call _ (handle_lines (lines text)) (handle_lines-IsAccounted (lines text)),
    λ (line, i, a). handle_lines-delivers (lines text) line call i a,
  )
