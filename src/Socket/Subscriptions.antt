-- ===== src/Socket/Subscriptions.antt =====
-- frontend/seer/src/socket/socket.ts: what `on` and `off` do to the handlers of each type.
use seer.Common.{
  ℕ, ◌==◌, ◌≡◌, refl, sym, ◌∙◌, subst, String, false, some, List, [], ◌∷◌, ◌++◌, if◌then◌else◌,
  arith, lookup, lookup-insert, str_eq, Bool-cases, inl, inr, eq_refl,
}
use seer.Socket.{WsClient, subscribers, on, off, off_in, add, remove, contains}

contains-remove : (h : ℕ) (hs : List ℕ) → contains h (remove h hs) ≡ false
unfolding contains remove
contains-remove h [] = refl
contains-remove h (g ∷ gs) = elim (Bool-cases (g == h)) [
  | inl e ↦ rw e (contains-remove h gs)
  | inr e ↦ rw (e, e) (contains-remove h gs)
]

remove-append : (h : ℕ) (hs : List ℕ) → remove h (hs ++ (h ∷ [])) ≡ remove h hs
unfolding remove
remove-append h [] = ground arith
remove-append h (g ∷ gs) = rw (remove-append h gs) refl

remove-add : (h : ℕ) (hs : List ℕ) → remove h (add h hs) ≡ remove h hs
unfolding add
remove-add h hs = elim (Bool-cases (contains h hs)) [
  | inl e ↦ rw e refl
  | inr e ↦ rw e (remove-append h hs)
]

module _ {Delay : Type 0} (t : String) (h : ℕ) (c : WsClient Delay) where
  handlers_of_on :
      (j : String)
      → lookup j (on t h c).handlers
        ≡ (if str_eq t j then some (add h (subscribers c t)) else lookup j c.handlers)
  unfolding on
  handlers_of_on j = lookup-insert t j (add h (subscribers c t)) c.handlers

  own_handlers : lookup t (on t h c).handlers ≡ some (add h (subscribers c t))
  own_handlers = handlers_of_on t ∙ rw (eq_refl t) refl

  subscribers-off :
      (j : String)
      → subscribers (off t h (on t h c)) j
        ≡ (if str_eq t j then remove h (subscribers c t) else subscribers c j)
  unfolding off off_in subscribers
  subscribers-off j = elim (Bool-cases (str_eq t j)) [
    | inl e ↦ rw (own_handlers, lookup-insert, e) (remove-add h (subscribers c t))
    | inr e ↦ rw (own_handlers, lookup-insert, e, handlers_of_on, e) refl
  ]

  -- After a subscription and its end, the type's handlers are those of before without that one, which is not
  -- among them any more, and those of the other types are what they were.
  pub off-on_lem :
      (j : String)
      → (subscribers (off t h (on t h c)) j
          ≡ (if str_eq t j then remove h (subscribers c t) else subscribers c j))
        × (contains h (subscribers (off t h (on t h c)) t) ≡ false)
  off-on_lem j = (
    subscribers-off j,
    subst (λ hs. contains h hs ≡ false) (sym (subscribers-off t ∙ rw (eq_refl t) refl))
        (contains-remove h (subscribers c t)),
  )
