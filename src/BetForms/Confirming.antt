-- ===== src/BetForms/Confirming.antt =====
-- frontend/seer/src/ui/bet/BetUser.tsx: the life of a shown bet, as its events. A history is a list
-- of events, the newest first.
pub mod Requested
use seer.Common.{String, true, false, Option, List, [], ◌∷◌}
use seer.Definitions.{MarketView, Bet, CashoutBet}
use seer.Numbers.{Numbers}
use seer.BetForms.{Effect, does_nothing, opens_auth, mutates}
use seer.BetForms.CashingOut.{CashoutForm, press_user}

-- `key` is the text of the random number that is drawn when the component is mounted.
abbrev pub initial_cashout : String → CashoutForm
initial_cashout key = record { cashout_clicked = false; idempotency_key = key; is_pending = false }

-- A press of the button that is shown for a market and a bet, or the end of the mutation.
pub data CashoutEvent (D : Type 0) : Type 0 where
  presses : Option (MarketView D) → Bet D → CashoutEvent D
  settles : CashoutEvent D

-- A mutation that is started is pending until it ends.
abbrev pub pending_after : {D : Type 0} → Effect (CashoutBet D) × CashoutForm → CashoutForm
pending_after (does_nothing, form) = form
pending_after (opens_auth, form) = form
pending_after (mutates c, form) = record form { is_pending = true }

module _ (N : Numbers) where
  open N use {D}

  abbrev pub cashout_step : CashoutEvent D → CashoutForm → CashoutForm
  cashout_step (presses market bet) form = pending_after (press_user N market bet form)
  cashout_step settles form = record form { is_pending = false }

  abbrev pub form_after : String → List (CashoutEvent D) → CashoutForm
  form_after key [] = initial_cashout key
  form_after key (e ∷ past) = cashout_step e (form_after key past)
