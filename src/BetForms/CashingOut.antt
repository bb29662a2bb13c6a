-- ===== src/BetForms/CashingOut.antt =====
-- frontend/seer/src/ui/bet/BetUser.tsx and ui/markets/details/MarketBetSection.tsx: the buttons that cash a bet
-- out, and which cash-outs are sent.
use seer.Common.{
  not, if◌then◌else◌, String, ◌||◌, ◌&&◌, and-right, ◌≡◌, refl, subst, Bool, true, false, Option,
  none, some, Bool-cases, inl, inr,
}
use seer.Common.Result.{Result, ok, thrown, out_of_fuel}
use seer.Definitions.{BetStatus, active, won, lost, cashed_out, MarketView, Bet, CashoutBet}
use seer.Common.Int.{ℤ}
use seer.Clock.{is_market_active}
use seer.Numbers.{Numbers}
use seer.Lslmsr.Quotes.{possible_payout_delta_for_cashout}
use seer.BetForms.{Effect, does_nothing, mutates}

-- The state of BetUser and of BetCard, and whether their mutation is pending.
pub record CashoutForm : Type 0 where
  pub cashout_clicked : Bool
  pub idempotency_key : String
  pub is_pending : Bool

abbrev pub is_resolved : BetStatus → Bool
is_resolved active = false
is_resolved won = true
is_resolved lost = true
is_resolved cashed_out = true

module _ (N : Numbers) where
  open N use {D}

  abbrev pub handle_cashout : Bet D → CashoutForm → Bool × D × D → Effect (CashoutBet D)
  handle_cashout bet form (possible, delta_prop, payout) =
      if not form.cashout_clicked || not possible
      then does_nothing
      else mutates (record {
        bet_id = bet.id;
        min_wanted_gain = payout;
        idempotency_key = form.idempotency_key;
      })

  -- The first press asks for a second one.
  abbrev pub press_offered :
      Bet D → CashoutForm → Result (Bool × D × D) → Effect (CashoutBet D) × CashoutForm
  press_offered bet form (ok offer) =
      if form.is_pending || not offer.0
      then (does_nothing, form)
      else if form.cashout_clicked
      then (handle_cashout bet form offer, form)
      else (does_nothing, record form { cashout_clicked = true })
  press_offered bet form _ = (does_nothing, form)

  abbrev pub press_card_of :
      Bet D → CashoutForm → Option (MarketView D) → Effect (CashoutBet D) × CashoutForm
  press_card_of bet form none = (does_nothing, form)
  press_card_of bet form (some market) =
      press_offered bet form (possible_payout_delta_for_cashout N market bet)

  -- The button of BetUser, which a resolved bet does not have.
  unfoldable pub press_user :
      Option (MarketView D) → Bet D → CashoutForm → Effect (CashoutBet D) × CashoutForm
  press_user market bet form =
      if is_resolved bet.status then (does_nothing, form) else press_card_of bet form market

  -- The button of BetCard, which asks at the time of the rendering and at that of the press whether the
  -- market is active.
  abbrev pub press_card_shown :
      (rendered pressed : ℤ)
      → MarketView D
      → Bet D
      → CashoutForm
      → Effect (CashoutBet D) × CashoutForm
  press_card_shown rendered pressed market bet form =
      if is_market_active rendered market && is_market_active pressed market
      then press_card_of bet form (some market)
      else (does_nothing, form)

  unfoldable pub press_card :
      (rendered pressed : ℤ)
      → Option (MarketView D)
      → Bet D
      → CashoutForm
      → Effect (CashoutBet D) × CashoutForm
  press_card rendered pressed none bet form = (does_nothing, form)
  press_card rendered pressed (some market) bet form =
      press_card_shown rendered pressed market bet form

module _ (N : Numbers) where
  open N use {D}

  -- The cash-out c is of the bet, of a form that is armed and not pending, and its least gain is the one offered.
  pub record IsConfirmed (market : Option (MarketView D)) (bet : Bet D) (form : CashoutForm)
      (c : CashoutBet D) : Type 0 where
    pub shown : MarketView D
    pub delta : D
    pub market_eq : market ≡ some shown
    pub offer_eq :
        possible_payout_delta_for_cashout N shown bet ≡ ok (true, delta, c.min_wanted_gain)
    pub clicked_eq : form.cashout_clicked ≡ true
    pub waiting_eq : form.is_pending ≡ false
    pub bet_eq : c.bet_id ≡ bet.id
    pub key_eq : c.idempotency_key ≡ form.idempotency_key

  mutates-injective : {B : Type 0} {b c : B} → mutates b ≡ mutates c → b ≡ c
  mutates-injective e = cc

  offered-IsConfirmed :
      (shown : MarketView D) (bet : Bet D) (form : CashoutForm) (offer : Result (Bool × D × D))
      {c : CashoutBet D}
      → possible_payout_delta_for_cashout N shown bet ≡ offer
      → (press_offered N bet form offer).0 ≡ mutates c
      → IsConfirmed (some shown) bet form c
  offered-IsConfirmed shown bet form thrown offered e = cc
  offered-IsConfirmed shown bet form out_of_fuel offered e = cc
  offered-IsConfirmed shown bet form (ok (false, delta, payout)) offered e =
      elim (Bool-cases form.is_pending) [
        | inl pending ↦ let e' = (rw (pending) at e) in cc
        | inr idle ↦ let e' = (rw (idle) at e) in cc
      ]
  offered-IsConfirmed shown bet form (ok (true, delta, payout)) {c} offered e =
      elim (Bool-cases form.is_pending) [
        | inl pending ↦ let e' = (rw (pending) at e) in cc
        | inr idle ↦
            let e' = (rw (idle) at e) in
            elim (Bool-cases form.cashout_clicked) [
              | inl clicked ↦
                  let e'' = (rw (clicked) at e') in
                  subst (λ (c : CashoutBet D). IsConfirmed (some shown) bet form c)
                    (mutates-injective e'')
                    (record {
                      shown = shown;
                      delta = delta;
                      market_eq = refl;
                      offer_eq = offered;
                      clicked_eq = clicked;
                      waiting_eq = idle;
                      bet_eq = refl;
                      key_eq = refl;
                    })
              | inr unclicked ↦ let e'' = (rw (unclicked) at e') in cc
            ]
      ]

  press_card_of-IsConfirmed :
      (market : Option (MarketView D)) (bet : Bet D) (form : CashoutForm) {c : CashoutBet D}
      → (press_card_of N bet form market).0 ≡ mutates c
      → IsConfirmed market bet form c
  press_card_of-IsConfirmed none bet form e = cc
  press_card_of-IsConfirmed (some shown) bet form e =
      offered-IsConfirmed shown bet form (possible_payout_delta_for_cashout N shown bet) refl e

  -- A cash-out that a press on a card sends is confirmed in the same way, and its market is active.
  pub press_card-IsConfirmed :
      (rendered pressed : ℤ) (market : MarketView D) (bet : Bet D) (form : CashoutForm)
      {c : CashoutBet D}
      → (press_card N rendered pressed (some market) bet form).0 ≡ mutates c
      → (is_market_active pressed market ≡ true) × IsConfirmed (some market) bet form c
  unfolding press_card
  press_card-IsConfirmed rendered pressed market bet form e =
      elim (Bool-cases (is_market_active rendered market && is_market_active pressed market)) [
        | inl active_market ↦
            let e' = (rw (active_market) at e) in
            (and-right _ _ active_market, press_card_of-IsConfirmed (some market) bet form e')
        | inr inactive ↦ let e' = (rw (inactive) at e) in cc
      ]

  -- A cash-out that a press sends is of a bet that is not resolved and of a form that is armed and not pending, and asks
  -- for the gain that the market maker offers as possible.
  pub press_user-IsConfirmed :
      (market : Option (MarketView D)) (bet : Bet D) (form : CashoutForm) {c : CashoutBet D}
      → (press_user N market bet form).0 ≡ mutates c
      → (is_resolved bet.status ≡ false) × IsConfirmed market bet form c
  unfolding press_user
  press_user-IsConfirmed market bet form e = elim (Bool-cases (is_resolved bet.status)) [
    | inl resolved ↦ let e' = (rw (resolved) at e) in cc
    | inr open_bet ↦ (open_bet, press_card_of-IsConfirmed market bet form (rw (open_bet) at e))
  ]
