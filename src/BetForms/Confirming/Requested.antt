-- ===== src/BetForms/Confirming/Requested.antt =====
-- frontend/seer/src/ui/bet/BetUser.tsx: which cash-outs the button of a shown bet sends over its life.
use seer.Common.{
  not, if◌then◌else◌, String, ◌||◌, ◌≡◌, ◌≢◌, ◌⊎◌, refl, ap, sym, ◌∙◌, arith, Bool, true, false,
  Option, none, some, List, [], ◌∷◌, inl, inr,
}
use seer.Common.Result.{Result, ok, thrown, out_of_fuel}
use seer.Definitions.{MarketView, Bet, CashoutBet}
use seer.Numbers.{Numbers}
use seer.Lslmsr.Quotes.{possible_payout_delta_for_cashout}
use seer.BetForms.{Effect, does_nothing, opens_auth, mutates}
use seer.BetForms.CashingOut.{
  CashoutForm, is_resolved, handle_cashout, press_offered, press_card_of, press_user,
  press_user-IsConfirmed,
}
use seer.BetForms.Confirming.{CashoutEvent, presses, settles, pending_after, form_after}

module _ (N : Numbers) where
  open N use {D}

  -- What a press does after a history.
  abbrev pub effect_after :
      String → List (CashoutEvent D) → Option (MarketView D) → Bet D → Effect (CashoutBet D)
  effect_after key past market bet = (press_user N market bet (form_after N key past)).0

  -- The market maker offers to cash out the bet that is shown.
  abbrev pub IsOffered : Option (MarketView D) → Bet D → Type 0
  IsOffered market bet =
      (is_resolved bet.status ≡ false)
      × ((shown : MarketView D) × (delta payout : D) × (market ≡ some shown)
          × (possible_payout_delta_for_cashout N shown bet ≡ ok (true, delta, payout)))

  abbrev pub SendsNothing : Effect (CashoutBet D) → Type 0
  SendsNothing effect = (c : CashoutBet D) → effect ≢ mutates c

  -- A press that was offered a cash-out and sent nothing.
  abbrev pub Asks : String → CashoutEvent D → List (CashoutEvent D) → Type 0
  Asks key settles past = ⊥
  Asks key (presses market bet) past =
      IsOffered market bet × SendsNothing (effect_after key past market bet)

  abbrev pub WasAsked : String → List (CashoutEvent D) → Type 0
  WasAsked key [] = ⊥
  WasAsked key (e ∷ past) = Asks key e past ⊎ WasAsked key past

  -- Nothing was sent since the last answer.
  abbrev pub AllSettled : String → List (CashoutEvent D) → Type 0
  AllSettled key [] = Unit {0}
  AllSettled key (settles ∷ past) = Unit {0}
  AllSettled key (presses market bet ∷ past) =
      SendsNothing (effect_after key past market bet) × AllSettled key past

  -- What a press leaves: the key stays; without an effect nothing gets or stops pending; and the button is armed only by
  -- a press that was offered a cash-out and sent nothing.
  record IsPressed (market : Option (MarketView D)) (bet : Bet D) (form : CashoutForm)
      (after : Effect (CashoutBet D) × CashoutForm) : Type 0 where
    key_eq : after.1.idempotency_key ≡ form.idempotency_key
    pending_eq : after.1.is_pending ≡ form.is_pending
    clicked_of :
        after.1.cashout_clicked ≡ true
        → (form.cashout_clicked ≡ true) ⊎ (IsOffered market bet × (after.0 ≡ does_nothing))

  untouched :
      (market : Option (MarketView D)) (bet : Bet D) (form : CashoutForm)
      (e : Effect (CashoutBet D))
      → IsPressed market bet form (e, form)
  untouched market bet form e = record {
    key_eq = refl;
    pending_eq = refl;
    clicked_of = λ clicked. inl clicked;
  }

  chosen-IsPressed :
      (shown : MarketView D) (bet : Bet D) (form : CashoutForm) (offer : Bool × D × D)
      (disabled clicked : Bool)
      → (disabled ≡ false → IsOffered (some shown) bet)
      → IsPressed (some shown) bet form (
          if disabled
          then (does_nothing, form)
          else if clicked
          then (handle_cashout N bet form offer, form)
          else (does_nothing, record form { cashout_clicked = true }))
  chosen-IsPressed shown bet form offer true clicked offered = untouched _ _ _ _
  chosen-IsPressed shown bet form offer false true offered = untouched _ _ _ _
  chosen-IsPressed shown bet form offer false false offered = record {
    key_eq = refl;
    pending_eq = refl;
    clicked_of = λ clicked. inr (offered refl, refl);
  }

  enabled_possible : (pending possible : Bool) → (pending || not possible) ≡ false → possible ≡ true
  enabled_possible pending possible e = ground arith

  offered-IsPressed :
      (shown : MarketView D) (bet : Bet D) (form : CashoutForm) (offer : Result (Bool × D × D))
      → is_resolved bet.status ≡ false
      → possible_payout_delta_for_cashout N shown bet ≡ offer
      → IsPressed (some shown) bet form (press_offered N bet form offer)
  offered-IsPressed shown bet form thrown unresolved e = untouched _ _ _ _
  offered-IsPressed shown bet form out_of_fuel unresolved e = untouched _ _ _ _
  offered-IsPressed shown bet form (ok (possible, delta, payout)) unresolved e =
      chosen-IsPressed shown bet form (possible, delta, payout) (form.is_pending || not possible)
        form.cashout_clicked
        (λ enabled.
          let sure = enabled_possible form.is_pending possible enabled in
          (unresolved, (shown, delta, payout, refl, e ∙ ap (λ p. ok (p, delta, payout)) sure)))

  press_user-IsPressed :
      (market : Option (MarketView D)) (bet : Bet D) (form : CashoutForm)
      → IsPressed market bet form (press_user N market bet form)
  unfolding press_user
  press_user-IsPressed market bet form = shown_for (is_resolved bet.status) market refl
    where
      shown_for :
          (over : Bool) (market : Option (MarketView D))
          → is_resolved bet.status ≡ over
          → IsPressed market bet form
              (if over then (does_nothing, form) else press_card_of N bet form market)
      shown_for true market e = untouched _ _ _ _
      shown_for false none e = untouched _ _ _ _
      shown_for false (some shown) e =
          offered-IsPressed shown bet form (possible_payout_delta_for_cashout N shown bet) e refl

  -- What the state of the form says of the history.
  record Tracks (key : String) (past : List (CashoutEvent D)) (form : CashoutForm) : Type 0 where
    key_eq : form.idempotency_key ≡ key
    asked : form.cashout_clicked ≡ true → WasAsked key past
    settled : form.is_pending ≡ false → AllSettled key past

  quiet-Tracks :
      (key : String) (past : List (CashoutEvent D)) (market : Option (MarketView D)) (bet : Bet D)
      (after : Effect (CashoutBet D) × CashoutForm)
      → SendsNothing (effect_after key past market bet)
      → IsPressed market bet (form_after N key past) after
      → Tracks key past (form_after N key past)
      → Tracks key (presses market bet ∷ past) after.1
  quiet-Tracks key past market bet after quiet p h = record {
    key_eq = p.key_eq ∙ h.key_eq;
    asked = λ clicked. elim (p.clicked_of clicked) [
      | inl before ↦ inr (h.asked before)
      | inr (offered, nothing) ↦ inl (offered, quiet)
    ];
    settled = λ idle. (quiet, h.settled (sym p.pending_eq ∙ idle));
  }

  pressed-Tracks :
      (key : String) (past : List (CashoutEvent D)) (market : Option (MarketView D)) (bet : Bet D)
      (after : Effect (CashoutBet D) × CashoutForm)
      → press_user N market bet (form_after N key past) ≡ after
      → IsPressed market bet (form_after N key past) after
      → Tracks key past (form_after N key past)
      → Tracks key (presses market bet ∷ past) (pending_after after)
  pressed-Tracks key past market bet (does_nothing, form) e p h =
      quiet-Tracks key past market bet _ (λ c sent. cc (ap (λ a. a.0) e, sent)) p h
  pressed-Tracks key past market bet (opens_auth, form) e p h =
      quiet-Tracks key past market bet _ (λ c sent. cc (ap (λ a. a.0) e, sent)) p h
  pressed-Tracks key past market bet (mutates c, form) e p h = record {
    key_eq = p.key_eq ∙ h.key_eq;
    asked = λ clicked. elim (p.clicked_of clicked) [
      | inl before ↦ inr (h.asked before)
      | inr (offered, nothing) ↦ cc
    ];
    settled = λ idle. cc;
  }

  form_after-Tracks :
      (key : String) (past : List (CashoutEvent D)) → Tracks key past (form_after N key past)
  form_after-Tracks key [] = record { key_eq = refl; asked = λ e. cc; settled = λ e. tt }
  form_after-Tracks key (settles ∷ past) =
      let h = form_after-Tracks key past in
      record { key_eq = h.key_eq; asked = λ e. inr (h.asked e); settled = λ e. tt }
  form_after-Tracks key (presses market bet ∷ past) =
      pressed-Tracks key past market bet (press_user N market bet (form_after N key past)) refl
        (press_user-IsPressed market bet (form_after N key past)) (form_after-Tracks key past)

  -- The cash-out c is right to send for what is shown, after a history.
  pub record IsRequested (key : String) (past : List (CashoutEvent D))
      (market : Option (MarketView D)) (bet : Bet D) (c : CashoutBet D) : Type 0 where
    pub unresolved_eq : is_resolved bet.status ≡ false
    pub shown : MarketView D
    pub delta : D
    pub market_eq : market ≡ some shown
    pub offer_eq :
        possible_payout_delta_for_cashout N shown bet ≡ ok (true, delta, c.min_wanted_gain)
    pub bet_eq : c.bet_id ≡ bet.id
    pub key_eq : c.idempotency_key ≡ key
    pub asked : WasAsked key past
    pub settled : AllSettled key past

  -- Whatever is pressed, shown and answered from the mounting on, a cash-out that a press sends is of the bet that is
  -- shown, which is not resolved; it asks for the gain that the market maker offers as possible and has the key of the
  -- mounting; an earlier press was offered a cash-out and sent nothing; and every cash-out that was sent before has been
  -- answered.
  pub press_user-IsRequested :
      (key : String) (past : List (CashoutEvent D)) (market : Option (MarketView D)) (bet : Bet D)
      {c : CashoutBet D}
      → (press_user N market bet (form_after N key past)).0 ≡ mutates c
      → IsRequested key past market bet c
  press_user-IsRequested key past market bet e =
      let h = form_after-Tracks key past in
      let (unresolved, sent) = press_user-IsConfirmed N market bet (form_after N key past) e in
      record {
        unresolved_eq = unresolved;
        shown = sent.shown;
        delta = sent.delta;
        market_eq = sent.market_eq;
        offer_eq = sent.offer_eq;
        bet_eq = sent.bet_eq;
        key_eq = sent.key_eq ∙ h.key_eq;
        asked = h.asked sent.clicked_eq;
        settled = h.settled sent.waiting_eq;
      }
