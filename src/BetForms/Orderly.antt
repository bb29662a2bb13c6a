-- ===== src/BetForms/Orderly.antt =====
-- frontend/seer/src/ui/bet/BetModal.tsx: the order in which an open form sends bets and is answered.
use seer.Common.{
  absurd_of_true, ℕ, String, ◌≡◌, refl, sym, subst, ◌∙◌, Bool, true, false, Option, none, some,
  List, [], ◌∷◌, Bool-cases, inl, inr,
}
use seer.Common.Int.{ℤ}
use seer.Definitions.{Outcome, MarketView, BetSide, PlaceBet}
use seer.Numbers.{Numbers}
use seer.BetForms.{BetForm, BetView, Effect, does_nothing, opens_auth, mutates, initial_form, press}
use seer.BetForms.Placing.{press-IsCovered}
use seer.BetForms.Session.{
  Event, types, picks, shows, toggles_chart, presses, is_answered, Entry, sent, accepted, refused,
  pick_outcome, pick, after_press, answer_if, answer, logged, step, run,
}

-- Where a form stands in the protocol.
pub data Phase : Type 0 where
  ready waiting finished : Phase

abbrev is_waiting : Phase → Bool
is_waiting ready = false
is_waiting waiting = true
is_waiting finished = false

abbrev is_finished : Phase → Bool
is_finished ready = false
is_finished waiting = false
is_finished finished = true

module _ {D : Type 0} where
  -- A log obeys the protocol for a key: what is sent has the key and is answered before the next is sent, and
  -- after an acceptance nothing more happens.
  abbrev pub Obeys : String → Phase → List (Entry D) → Type 0
  Obeys key phase [] = Unit
  Obeys key ready (sent b ∷ log) = (b.idempotency_key ≡ key) × Obeys key waiting log
  Obeys key ready (accepted ∷ log) = ⊥
  Obeys key ready (refused ∷ log) = ⊥
  Obeys key waiting (sent b ∷ log) = ⊥
  Obeys key waiting (accepted ∷ log) = Obeys key finished log
  Obeys key waiting (refused ∷ log) = Obeys key ready log
  Obeys key finished (entry ∷ log) = ⊥

  -- The phase, key and flags of a form go together.
  record IsAt (key : String) (phase : Phase) (form : BetForm D) : Type 0 where
    key_eq : form.idempotency_key ≡ key
    pending_eq : form.is_pending ≡ is_waiting phase
    success_eq : form.show_success ≡ is_finished phase

  -- A step of a form in a phase ends in a phase, and keeps the protocol for whatever is logged after it.
  Keeps : String → Phase → Option (Entry D) × BetForm D → Type 0
  Keeps key phase next =
      (phase' : Phase) × IsAt key phase' next.1
      × ((log : List (Entry D)) → Obeys key phase' log → Obeys key phase (logged next.0 log))

  quiet-Keeps :
      {key : String} {phase : Phase} {form : BetForm D}
      → IsAt key phase form
      → Keeps key phase (none, form)
  unfolding Keeps
  quiet-Keeps {phase} at = (phase, at, λ log obeys. obeys)

  pick-IsAt :
      (first : Bool) (market : Option (MarketView D)) {key : String} {phase : Phase}
      {form : BetForm D}
      → IsAt key phase form
      → IsAt key phase (pick first market form)
  pick-IsAt first none at = at
  pick-IsAt first (some market) at = elim (Bool-cases market.is_binary) [
    | inl binary ↦ rw binary (choose first market.outcomes at)
    | inr several ↦
        rw several
          (record { key_eq = at.key_eq; pending_eq = at.pending_eq; success_eq = at.success_eq })
  ]
    where
      choose :
          (first : Bool) (os : List (Outcome D)) {key : String} {phase : Phase} {form : BetForm D}
          → IsAt key phase form
          → IsAt key phase (pick_outcome first os form)
      choose first [] at = at
      choose true (o ∷ os) at = record {
        key_eq = at.key_eq;
        pending_eq = at.pending_eq;
        success_eq = at.success_eq;
      }
      choose false (o ∷ []) at = at
      choose false (o ∷ o' ∷ os) at = record {
        key_eq = at.key_eq;
        pending_eq = at.pending_eq;
        success_eq = at.success_eq;
      }

  answer_if-Keeps :
      (success : Bool) {key : String} (phase : Phase) {form : BetForm D}
      → IsAt key phase form
      → Keeps key phase (answer_if (is_waiting phase) success form)
  unfolding Keeps
  answer_if-Keeps success ready at = quiet-Keeps at
  answer_if-Keeps success finished at = quiet-Keeps at
  answer_if-Keeps true waiting at = (
    finished,
    record { key_eq = at.key_eq; pending_eq = refl; success_eq = refl },
    λ log obeys. obeys,
  )
  answer_if-Keeps false waiting at = (
    ready,
    record { key_eq = at.key_eq; pending_eq = refl; success_eq = at.success_eq },
    λ log obeys. obeys,
  )

  answer-Keeps :
      (success : Bool) {key : String} (phase : Phase) {form : BetForm D}
      → IsAt key phase form
      → Keeps key phase (answer success form)
  answer-Keeps success {key} phase {form} at =
      subst (λ pending. Keeps key phase (answer_if pending success form)) (sym at.pending_eq)
        (answer_if-Keeps success phase at)

module _ (N : Numbers) (is_zero : N.D → Bool) (less_than : N.D → N.D → Bool) (fuel : ℕ) where
  open N use {D}

  -- A press sends only from a form that is ready.
  sent-Keeps :
      {key : String} (phase : Phase) (view : BetView D) {form : BetForm D} {b : PlaceBet D}
      → IsAt key phase form
      → press N is_zero less_than fuel view form ≡ mutates b
      → Keeps key phase (after_press form (mutates b))
  unfolding Keeps
  sent-Keeps ready view {form} at e =
      let covered = press-IsCovered N is_zero less_than fuel view form e in
      (
        waiting,
        record { key_eq = at.key_eq; pending_eq = refl; success_eq = at.success_eq },
        λ log obeys. (covered.key_eq ∙ at.key_eq, obeys),
      )
  sent-Keeps waiting view {form} at e =
      absurd_of_true
        (sym at.pending_eq ∙ (press-IsCovered N is_zero less_than fuel view form e).waiting_eq)
  sent-Keeps finished view {form} at e =
      absurd_of_true
        (sym at.success_eq ∙ (press-IsCovered N is_zero less_than fuel view form e).success_eq)

  press-Keeps :
      {key : String} (phase : Phase) (view : BetView D) {form : BetForm D}
      (effect : Effect (PlaceBet D))
      → IsAt key phase form
      → press N is_zero less_than fuel view form ≡ effect
      → Keeps key phase (after_press form effect)
  press-Keeps phase view does_nothing at e = quiet-Keeps at
  press-Keeps phase view opens_auth at e = quiet-Keeps at
  press-Keeps phase view (mutates b) at e = sent-Keeps phase view at e

  step-Keeps :
      {key : String} (phase : Phase) (view : BetView D) (event : Event D) {form : BetForm D}
      → IsAt key phase form
      → Keeps key phase (step N is_zero less_than fuel view event form)
  step-Keeps phase view (types amount) at =
      quiet-Keeps
        (record { key_eq = at.key_eq; pending_eq = at.pending_eq; success_eq = at.success_eq })
  step-Keeps phase view (picks first) at = quiet-Keeps (pick-IsAt first view.market at)
  step-Keeps phase view (shows id) at =
      quiet-Keeps
        (record { key_eq = at.key_eq; pending_eq = at.pending_eq; success_eq = at.success_eq })
  step-Keeps phase view toggles_chart at =
      quiet-Keeps
        (record { key_eq = at.key_eq; pending_eq = at.pending_eq; success_eq = at.success_eq })
  step-Keeps phase view presses {form} at =
      press-Keeps phase view (press N is_zero less_than fuel view form) at refl
  step-Keeps phase view (is_answered success) at = answer-Keeps success phase at

  run-Obeys_from :
      {key : String} (phase : Phase) (form : BetForm D) (events : List (BetView D × Event D))
      → IsAt key phase form
      → Obeys key phase (run N is_zero less_than fuel form events)
  unfolding run Keeps
  run-Obeys_from phase form [] at = tt
  run-Obeys_from phase form ((view, event) ∷ events) at =
      let (phase', at', keeps) = step-Keeps phase view event at in
      keeps _ (run-Obeys_from phase' (step N is_zero less_than fuel view event form).1 events at')

  -- Whatever the user does to an open form and however the server answers, every bet that it sends has the key
  -- that the form was opened with, is sent only when the one before was refused, and none is sent after an
  -- acceptance.
  pub run-Obeys :
      (id : ℤ) (side : BetSide) (key : String) (events : List (BetView D × Event D))
      → Obeys key ready (run N is_zero less_than fuel (initial_form id side key) events)
  unfolding initial_form
  run-Obeys id side key events =
      run-Obeys_from ready (initial_form id side key) events
        (record { key_eq = refl; pending_eq = refl; success_eq = refl })
