-- ===== src/Cards/Sound.antt =====
-- frontend/seer/src/ui/markets/home/MarketCard.tsx on the markets that lib/definitions.ts validates: when a card can be
-- rendered.
use seer.Common.{
  ◌==◌, ◌≡◌, ◌↔◌, refl, sym, ◌∙◌, true, Option, none, some, List, [], ◌∷◌, length, Bool-cases,
  Option-cases, inl, inr, arith,
}
use seer.Common.Result.{thrown}
use seer.Definitions.{
  Outcome, MarketView, MarketStatus, active, resolved, pending, paused, MarketResolution,
}
use seer.Numbers.{Numbers}
use seer.BetForms.{find_outcome}
use seer.Live.Validated.{IsWellFormed}
use seer.Cards.{card_body, body_at, open_body, pair_body, resolved_body}

module _ (N : Numbers) where
  open N use {D}

  -- The market is resolved for an outcome that it does not have.
  abbrev pub IsLost : MarketView D → Type 0
  IsLost m =
      (m.status ≡ resolved)
      × ((r : MarketResolution) × (m.resolution ≡ some r)
          × (find_outcome r.winning_outcome_id m.outcomes ≡ none))

  pair_body-ok : (os : List (Outcome D)) → (length os == 2) ≡ true → pair_body os ≡ thrown → ⊥
  pair_body-ok [] e h = absurd (ground arith)
  pair_body-ok (o ∷ []) e h = absurd (ground arith)
  pair_body-ok (o ∷ o' ∷ os) e h = cc

  open_body-ok : (m : MarketView D) → IsWellFormed m → open_body N m ≡ thrown → ⊥
  open_body-ok m w e = elim (Bool-cases m.is_binary) [
    | inl binary ↦
        let e' = (rw (binary) at e) in pair_body-ok m.outcomes (sym w.binary_eq ∙ binary) e'
    | inr other ↦ let e' = (rw (other) at e) in cc
  ]

  resolved_body_lem :
      (os : List (Outcome D)) (r : Option MarketResolution)
      → resolved_body os r ≡ thrown
      → (r' : MarketResolution) × (r ≡ some r') × (find_outcome r'.winning_outcome_id os ≡ none)
  resolved_body_lem os none e = cc
  resolved_body_lem os (some r) e = elim (Option-cases (find_outcome r.winning_outcome_id os)) [
    | inl missing ↦ (r, refl, missing)
    | inr (o, found) ↦ let e' = (rw (found) at e) in cc
  ]

  lost_body :
      (s : MarketStatus) (m : MarketView D) (r : MarketResolution)
      → s ≡ resolved
      → m.resolution ≡ some r
      → find_outcome r.winning_outcome_id m.outcomes ≡ none
      → body_at N m s ≡ thrown
  lost_body s m r e e' missing = rw (e, e', missing) refl

  -- On a market with outcomes that is binary exactly if they are two, the rendering of a card throws exactly if the
  -- market is resolved for an outcome that it does not have.
  pub card_body-eq-thrown_iff :
      (m : MarketView D) → IsWellFormed m → (card_body N m ≡ thrown) ↔ IsLost m
  unfolding card_body
  card_body-eq-thrown_iff m w =
      (only m.status refl, λ h. lost_body m.status m h.1.0 h.0 h.1.1 h.1.2)
    where
      only : (s : MarketStatus) → m.status ≡ s → body_at N m s ≡ thrown → IsLost m
      only resolved e h = (e, resolved_body_lem m.outcomes m.resolution h)
      only active e h = absurd (open_body-ok m w h)
      only pending e h = absurd (open_body-ok m w h)
      only paused e h = absurd (open_body-ok m w h)
