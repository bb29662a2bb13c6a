-- ===== src/Cards/Listed.antt =====
-- frontend/seer/src/ui/markets/home/MarketCard.tsx: a place on a card stands for an outcome of its market.
use mathlib.Core.Option.{some-injective}
use seer.Common.{
  zero, suc, All-mono, All, subst, All-take, ◌≡◌, refl, ℕ, Option, none, some, List, [], ◌∷◌,
  get_elem?, Bool-cases, Option-cases, inl, inr,
}
use seer.Common.Result.{ok, ok-injective}
use seer.Definitions.{
  Outcome, MarketView, MarketStatus, active, resolved, pending, paused, BetSide, y, n,
  MarketResolution,
}
use seer.Numbers.{Numbers}
use seer.Lslmsr.Sort.{sort-All}
use seer.BetForms.{find_outcome}
use seer.Cards.{
  BetOpening, opening, opening_of, on_row, on_yes, on_no, on_first, on_second, CardBody, CardPress,
  pair_body, open_body, resolved_body, body_at, comes_after, top_outcomes, sorted_outcomes, target,
  card_body, shows_rows, shows_pair, shows_winner, shows_nothing,
}

-- The side that a place on a card is for.
abbrev pub pressed_side : CardPress → BetSide
pressed_side (on_no i) = n
pressed_side _ = y

module _ {D : Type 0} where
  -- One of the market's outcomes.
  abbrev pub IsListed : MarketView D → Outcome D → Type 0
  IsListed market o = (i : ℕ) × (get_elem? market.outcomes i ≡ some o)

  All-listed :
      (os : List (Outcome D)) → All (λ (o : Outcome D). (i : ℕ) × (get_elem? os i ≡ some o)) os
  All-listed [] = tt
  All-listed (o ∷ os) = ((0, refl), All-mono (λ p (i, h). (suc i, h)) os (All-listed os))

  All-get_elem :
      (P : Outcome D → Type 0) (l : List (Outcome D)) (i : ℕ) {o : Outcome D}
      → All P l
      → get_elem? l i ≡ some o
      → P o
  All-get_elem P [] i h e = cc
  All-get_elem P (x ∷ l) zero (p, h) e = subst P (some-injective _ _ e) p
  All-get_elem P (x ∷ l) (suc i) (p, h) e = All-get_elem P l i h e

  -- The bet form b is for one of the market's outcomes and for the side.
  pub record IsFor (market : MarketView D) (side : BetSide) (b : BetOpening) : Type 0 where
    pub outcome : Outcome D
    pub listed : IsListed market outcome
    pub outcome_eq : b.initial_outcome_id ≡ outcome.id
    pub side_eq : b.initial_side ≡ side
    pub market_eq : b.market_id ≡ market.id

  -- Every outcome that a part of a card shows is listed.
  abbrev pub ShowsListed : MarketView D → CardBody D → Type 0
  ShowsListed market (shows_rows os) = All (IsListed market) os
  ShowsListed market (shows_pair o o') = IsListed market o × IsListed market o'
  ShowsListed market _ = Unit

  opening-IsFor :
      (market : MarketView D) (side : BetSide) (o : Outcome D) {b : BetOpening}
      → IsListed market o
      → some (opening market side o) ≡ some b
      → IsFor market side b
  opening-IsFor market side o h e =
      subst (IsFor market side) (some-injective _ _ e)
        (record { outcome = o; listed = h; outcome_eq = refl; side_eq = refl; market_eq = refl })

  row-IsFor :
      (market : MarketView D) (side : BetSide) (os : List (Outcome D)) (i : ℕ) {b : BetOpening}
      → All (IsListed market) os
      → opening_of market side (get_elem? os i) ≡ some b
      → IsFor market side b
  row-IsFor market side os i h e = elim (Option-cases (get_elem? os i)) [
    | inl missing ↦ let e' = (rw (missing) at e) in cc
    | inr (o, found) ↦
        let e' = (rw (found) at e) in
        opening-IsFor market side o (All-get_elem (IsListed market) os i h found) e'
  ]

  pub target-IsFor :
      (market : MarketView D) (body : CardBody D) (p : CardPress) {b : BetOpening}
      → ShowsListed market body
      → target market body p ≡ some b
      → IsFor market (pressed_side p) b
  target-IsFor market (shows_rows os) (on_row i) h e = row-IsFor market y os i h e
  target-IsFor market (shows_rows os) (on_yes i) h e = row-IsFor market y os i h e
  target-IsFor market (shows_rows os) (on_no i) h e = row-IsFor market n os i h e
  target-IsFor market (shows_rows os) on_first h e = cc
  target-IsFor market (shows_rows os) on_second h e = cc
  target-IsFor market (shows_pair o o') on_first (h, k) e = opening-IsFor market y o h e
  target-IsFor market (shows_pair o o') on_second (h, k) e = opening-IsFor market y o' k e
  target-IsFor market (shows_pair o o') (on_row i) h e = cc
  target-IsFor market (shows_pair o o') (on_yes i) h e = cc
  target-IsFor market (shows_pair o o') (on_no i) h e = cc
  target-IsFor market shows_nothing p h e = cc
  target-IsFor market (shows_winner o) p h e = cc

module _ (N : Numbers) where
  open N use {D}

  pair_body-ShowsListed :
      (market : MarketView D) (os : List (Outcome D))
      → All (IsListed market) os
      → {body : CardBody D} → pair_body os ≡ ok body
      → ShowsListed market body
  pair_body-ShowsListed market [] h e = cc
  pair_body-ShowsListed market (o ∷ []) h e = cc
  pair_body-ShowsListed market (o ∷ o' ∷ os) (h, (k, _)) e =
      subst (ShowsListed market) (ok-injective e) (h, k)

  rows-ShowsListed :
      (market : MarketView D) → ShowsListed market (shows_rows (top_outcomes N market))
  unfolding top_outcomes sorted_outcomes
  rows-ShowsListed market = All-take (IsListed market) 2 _ (
      sort-All (comes_after N market.outcome_sort) (IsListed market) market.outcomes
        (All-listed market.outcomes))

  open_body-ShowsListed :
      (market : MarketView D) {body : CardBody D}
      → open_body N market ≡ ok body
      → ShowsListed market body
  unfolding top_outcomes sorted_outcomes
  open_body-ShowsListed market e = elim (Bool-cases market.is_binary) [
    | inl binary ↦
        let e' = (rw (binary) at e) in
        pair_body-ShowsListed market market.outcomes (All-listed market.outcomes) e'
    | inr other ↦
        let e' = (rw (other) at e) in
        subst (ShowsListed market) (ok-injective e') (rows-ShowsListed market)
  ]

  resolved_body-ShowsListed :
      (market : MarketView D) (os : List (Outcome D)) (r : Option MarketResolution)
      {body : CardBody D}
      → resolved_body os r ≡ ok body
      → ShowsListed market body
  resolved_body-ShowsListed market os none e = subst (ShowsListed market) (ok-injective e) tt
  resolved_body-ShowsListed market os (some r) e =
      elim (Option-cases (find_outcome r.winning_outcome_id os)) [
        | inl missing ↦ let e' = (rw (missing) at e) in cc
        | inr (o, found) ↦
            let e' = (rw (found) at e) in subst (ShowsListed market) (ok-injective e') tt
      ]

  pub card_body-ShowsListed :
      (market : MarketView D) {body : CardBody D}
      → card_body N market ≡ ok body
      → ShowsListed market body
  unfolding card_body
  card_body-ShowsListed market e = at_status market.status e
    where
      at_status :
          (s : MarketStatus) {body : CardBody D}
          → body_at N market s ≡ ok body
          → ShowsListed market body
      at_status resolved e = resolved_body-ShowsListed market market.outcomes market.resolution e
      at_status active e = open_body-ShowsListed market e
      at_status pending e = open_body-ShowsListed market e
      at_status paused e = open_body-ShowsListed market e
