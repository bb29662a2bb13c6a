-- ===== src/Cards/Opening.antt =====
-- frontend/seer/src/ui/markets/home/MarketCard.tsx and app/(main)/market/[id]/page.tsx with ui/bet/BetModal.tsx: which
-- bets come of a press, and where the card and the page differ.
use mathlib.Core.Option.{some-injective}
use seer.Common.{
  ◌≡◌, refl, sym, ◌∙◌, ap, ℕ, String, Bool, true, false, ◌&&◌, ◌||◌, Option, none, some, Bool-cases,
  Option-cases, inl, inr, and-right, absurd_of_true, if◌then◌else◌,
}
use seer.Common.Int.{ℤ}
use seer.Common.Result.{Result, ok, thrown, out_of_fuel}
use seer.Definitions.{
  Outcome, MarketView, MarketStatus, active, resolved, pending, paused, PlaceBet,
}
use seer.Clock.{is_market_active, is_market_pending, is_active, is_pending, is_closed}
use seer.Clock.Laws.{is_market_active_lem}
use seer.Numbers.{Numbers}
use seer.BetForms.{BetView, initial_form, mutates, press}
use seer.BetForms.Placing.{press-IsCovered}
use seer.Cards.{
  BetOpening, CardBody, CardPress, press_on_card, press_body, target, is_enabled, card_body,
}
use seer.Cards.Listed.{IsListed, IsFor, target-IsFor, pressed_side, card_body-ShowsListed}
use seer.Cards.MarketPage.{PagePress, press_on_page, page_target}

module _ (N : Numbers) where
  open N use {D}

  -- A press that opens something is on a place of a card that is shown, while the market is active.
  press_body_opens :
      (rendered now : ℤ) (market : MarketView D) (body : Result (CardBody D)) (p : CardPress)
      {b : BetOpening}
      → press_body rendered now market body p ≡ some b
      → (is_market_active now market ≡ true)
        × ((shown : CardBody D) × (body ≡ ok shown) × (target market shown p ≡ some b))
  press_body_opens rendered now market (ok body) p e =
      let was_active = is_market_active rendered market in
      let is_active_now = is_market_active now market in
      elim (Bool-cases (is_enabled was_active body && is_active_now)) [
        | inl open_now ↦ let e' = (rw (open_now) at e) in (and-right _ _ open_now, (body, refl, e'))
        | inr shut ↦ let e' = (rw (shut) at e) in cc
      ]
  press_body_opens rendered now market thrown p e = cc
  press_body_opens rendered now market out_of_fuel p e = cc

  pub press_on_card-IsFor :
      (rendered now : ℤ) (market : MarketView D) (p : CardPress) {b : BetOpening}
      → press_on_card N rendered now market p ≡ some b
      → (is_market_active now market ≡ true) × IsFor market (pressed_side p) b
  unfolding press_on_card
  press_on_card-IsFor rendered now market p e =
      let (opened, (shown, body, aimed)) =
        press_body_opens rendered now market (card_body N market) p e in
      (opened, target-IsFor market shown p (card_body-ShowsListed N market body) aimed)

  both_false : (a b : Bool) → (a && b) ≡ false → b ≡ true → a ≡ false
  both_false true b e h = cc
  both_false false b e h = refl

  -- On the page of a market that counts as pending, a button that still opens a bet form belongs to a market whose
  -- status is active and whose closing time has passed; and no press on its card opens one.
  pub press_on_page-press_on_card :
      (now : ℤ) (market : MarketView D) (q : PagePress) {b : BetOpening}
      → press_on_page market q ≡ some b
      → is_market_pending now market ≡ true
      → (market.status ≡ active)
        × (is_closed now market.close_time ≡ true)
        × ((rendered : ℤ) (p : CardPress) → press_on_card N rendered now market p ≡ none)
  unfolding press_on_page is_market_pending
  press_on_page-press_on_card now market q e late =
      let status = status_of market.status (page_target market market.is_binary q) e in
      (
        status,
        closed_of market.status (is_closed now market.close_time) status late,
        λ rendered p. elim (Option-cases (press_on_card N rendered now market p)) [
          | inl nothing ↦ nothing
          | inr (b', opened) ↦
              let is_active_now = (press_on_card-IsFor rendered now market p opened).0 in
              absurd_of_true
                (sym is_active_now ∙ both_false _ _ (is_market_active_lem now market).1 late)
        ],
      )
    where
      status_of :
          (s : MarketStatus) (t : Option BetOpening) {b : BetOpening}
          → (if is_active s then t else none) ≡ some b
          → s ≡ active
      status_of active t e = refl
      status_of resolved t e = cc
      status_of pending t e = cc
      status_of paused t e = cc

      closed_of : (s : MarketStatus) (c : Bool) → s ≡ active → (is_pending s || c) ≡ true → c ≡ true
      closed_of s c h late = (rw (h) at late)

  module _ (is_zero : N.D → Bool) (less_than : N.D → N.D → Bool) (fuel : ℕ) where
    -- Let a press on a card open a bet form, which is on the market that it was opened for, a stake be typed, and
    -- a press of the form's button send a bet. Then the market was active when the card was pressed, and the bet is
    -- on one of its outcomes, on the side that was pressed, and has that stake and the form's key.
    pub press_on_card-press :
        (rendered now : ℤ) (market : MarketView D) (p : CardPress) (b : BetOpening) (key : String)
        (stake : D) (view : BetView D) (cached : MarketView D) (bet : PlaceBet D)
        → press_on_card N rendered now market p ≡ some b
        → view.market ≡ some cached
        → cached.id ≡ b.market_id
        → press N is_zero less_than fuel view
            (record (initial_form b.initial_outcome_id b.initial_side key) { amount = some stake })
          ≡ mutates bet
        → (is_market_active now market ≡ true)
          × ((o : Outcome D) × IsListed market o × (bet.outcome_id ≡ o.id))
          × (bet.side ≡ pressed_side p)
          × (bet.market_id ≡ market.id)
          × (bet.bet_amount ≡ stake)
          × (bet.idempotency_key ≡ key)
    unfolding initial_form
    press_on_card-press rendered now market p b key stake view cached bet opened held own sent =
        let (is_active_now, h) = press_on_card-IsFor rendered now market p opened in
        let c = press-IsCovered N is_zero less_than fuel view _ sent in
        let same : c.market ≡ cached = some-injective _ _ (sym c.market_eq ∙ held) in
        (
          is_active_now,
          (h.outcome, h.listed, c.outcome_id_eq ∙ h.outcome_eq),
          c.side_eq ∙ h.side_eq,
          c.market_id_eq ∙ ap (λ (m : MarketView D). m.id) same ∙ own ∙ h.market_eq,
          sym (some-injective _ _ c.amount_eq),
          c.key_eq,
        )
