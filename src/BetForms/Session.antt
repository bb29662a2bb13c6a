-- ===== src/BetForms/Session.antt =====
-- frontend/seer/src/ui/bet/BetModal.tsx: the life of an open form, from one user action or answer to the next.
use seer.Common.{ℕ, Bool, true, false, not, Option, none, some, List, [], ◌∷◌, if◌then◌else◌}
use seer.Common.Int.{ℤ}
use seer.Definitions.{Outcome, MarketView, y, n, PlaceBet}
use seer.Numbers.{Numbers}
use seer.BetForms.{BetForm, BetView, Effect, does_nothing, opens_auth, mutates, press}

-- What may happen to an open form: `shows` is a change of the outcome that it is opened for.
pub data Event (D : Type 0) : Type 0 where
  types : Option D → Event D
  picks : Bool → Event D
  shows : ℤ → Event D
  toggles_chart presses : Event D
  is_answered : Bool → Event D

-- What a server sees of it, and what it answers.
pub data Entry (D : Type 0) : Type 0 where
  sent : PlaceBet D → Entry D
  accepted refused : Entry D

module _ {D : Type 0} where
  -- The two buttons above the stake: the outcomes of a binary market, yes and no of another one.
  abbrev pub pick_outcome : Bool → List (Outcome D) → BetForm D → BetForm D
  pick_outcome first [] form = form
  pick_outcome true (o ∷ os) form = record form { outcome_id = o.id }
  pick_outcome false (o ∷ []) form = form
  pick_outcome false (o ∷ o' ∷ os) form = record form { outcome_id = o'.id }

  abbrev pub pick : Bool → Option (MarketView D) → BetForm D → BetForm D
  pick first none form = form
  pick first (some market) form =
      if market.is_binary
      then pick_outcome first market.outcomes form
      else record form { selected_side = if first then y else n }

  abbrev pub after_press : BetForm D → Effect (PlaceBet D) → Option (Entry D) × BetForm D
  after_press form does_nothing = (none, form)
  after_press form opens_auth = (none, form)
  after_press form (mutates b) = (some (sent b), record form { is_pending = true })

  -- Only a bet that waits is answered.
  abbrev pub answer_if : Bool → Bool → BetForm D → Option (Entry D) × BetForm D
  answer_if false success form = (none, form)
  answer_if true true form =
      (some accepted, record form { is_pending = false; show_success = true })
  answer_if true false form = (some refused, record form { is_pending = false })

  abbrev pub answer : Bool → BetForm D → Option (Entry D) × BetForm D
  answer success form = answer_if form.is_pending success form

  abbrev pub logged : Option (Entry D) → List (Entry D) → List (Entry D)
  logged none log = log
  logged (some entry) log = entry ∷ log

module _ (N : Numbers) (is_zero : N.D → Bool) (less_than : N.D → N.D → Bool) (fuel : ℕ) where
  open N use {D}

  -- After a success the form is no longer shown, so its fields stay as they are.
  abbrev pub step : BetView D → Event D → BetForm D → Option (Entry D) × BetForm D
  step view (types amount) form = (none, record form { amount = amount })
  step view (picks first) form = (none, pick first view.market form)
  step view (shows id) form = (none, record form { outcome_id = id })
  step view toggles_chart form =
      (none, record form { price_chart_show = not form.price_chart_show })
  step view presses form = after_press form (press N is_zero less_than fuel view form)
  step view (is_answered success) form = answer success form

  -- The log of a form, each of whose events comes with what the caches hold then.
  unfoldable pub run : BetForm D → List (BetView D × Event D) → List (Entry D)
  run form [] = []
  run form ((view, event) ∷ events) =
      let next = step view event form in let rest = run next.1 events in logged next.0 rest
