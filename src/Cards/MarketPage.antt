-- ===== src/Cards/MarketPage.antt =====
-- frontend/seer/src/app/(main)/market/[id]/page.tsx: the buttons of the page of a market, what it says of a
-- resolution, and the link that is copied.
use Prim.Native.String.{◌++◌}
use seer.Common.{
  ◌≡◌, refl, String, Bool, true, false, ℕ, suc, Option, none, some, List, [], ◌∷◌, get_elem?,
  if◌then◌else◌, Bool-cases, Option-cases, ap, inl, inr,
}
use mathlib.Core.Option.{some-injective}
use seer.Common.Int.{ℤ, eqb_ℤ, eqb_ℤ_iff}
use seer.Definitions.{
  Outcome, MarketView, MarketStatus, active, resolved, pending, paused, MarketResolution, y, n,
}
use seer.Clock.{is_active}
use seer.BetForms.{find_outcome}
use seer.Cards.{BetOpening, opening_of}

-- The buttons of the i-th outcome: yes and no, or one for a binary market.
pub data PagePress : Type 0 where
  yes no chosen : ℕ → PagePress

abbrev pub has_won : Option MarketResolution → ℤ → Bool
has_won none id = false
has_won (some r) id = eqb_ℤ r.winning_outcome_id id

module _ {D : Type 0} where
  abbrev pub page_target : MarketView D → Bool → PagePress → Option BetOpening
  page_target market false (yes i) = opening_of market y (get_elem? market.outcomes i)
  page_target market false (no i) = opening_of market n (get_elem? market.outcomes i)
  page_target market true (chosen i) = opening_of market y (get_elem? market.outcomes i)
  page_target market _ _ = none

  -- A button is disabled, and returns, unless the status is active; the closing time is not looked at.
  unfoldable pub press_on_page : MarketView D → PagePress → Option BetOpening
  press_on_page market p =
      if is_active market.status then page_target market market.is_binary p else none

  -- The name of the outcome that a resolution found; a missing one is shown as nothing.
  abbrev pub name_of : Option (Outcome D) → Option String
  name_of none = none
  name_of (some outcome) = some outcome.name

  abbrev pub resolution_of :
      MarketStatus → Option MarketResolution → List (Outcome D) → Option (Option String)
  resolution_of resolved (some r) outcomes =
      some (name_of (find_outcome r.winning_outcome_id outcomes))
  resolution_of _ _ outcomes = none

  -- The box "Outcome: …", where it is shown.
  unfoldable pub resolution_shown : MarketView D → Option (Option String)
  resolution_shown market = resolution_of market.status market.resolution market.outcomes

  abbrev pub mark_of : MarketStatus → Option MarketResolution → Outcome D → Option Bool
  mark_of resolved r outcome = some (has_won r outcome.id)
  mark_of _ r outcome = none

  -- The sign beside an outcome of a resolved market: has it won?
  unfoldable pub mark : MarketView D → Outcome D → Option Bool
  mark market outcome = mark_of market.status market.resolution outcome

abbrev pub share_url : String → String → String
share_url origin id = origin ++ "/market/" ++ id

module _ {D : Type 0} where
  -- The outcome is the market's, has the name, and is marked as the one that has won.
  pub record IsTheWinner (market : MarketView D) (name : String) (o : Outcome D) : Type 0 where
    pub listed : (i : ℕ) × (get_elem? market.outcomes i ≡ some o)
    pub name_eq : o.name ≡ name
    pub marked : mark market o ≡ some true

  find_outcome-listed :
      (id : ℤ) (os : List (Outcome D)) {o : Outcome D}
      → find_outcome id os ≡ some o
      → ((i : ℕ) × (get_elem? os i ≡ some o)) × (id ≡ o.id)
  unfolding find_outcome
  find_outcome-listed id [] e = cc
  find_outcome-listed id (p ∷ os) {o} e = elim (Bool-cases (eqb_ℤ p.id id)) [
    | inl same ↦
        let e' = (rw (same) at e) in
        ((0, e'), cc ((eqb_ℤ_iff p.id id).0 same, some-injective _ _ e'))
    | inr other ↦
        let e' = (rw (other) at e) in
        let ((i, h), own) = find_outcome-listed id os e' in ((suc i, h), own)
  ]

  -- Where a name is shown the market is resolved, for an outcome that is found.
  shown_name-found :
      (s : MarketStatus) (r : Option MarketResolution) (os : List (Outcome D)) {name : String}
      → resolution_of s r os ≡ some (some name)
      → (r' : MarketResolution) × (o : Outcome D) × (s ≡ resolved)
        × (r ≡ some r')
        × (find_outcome r'.winning_outcome_id os ≡ some o)
        × (o.name ≡ name)
  shown_name-found resolved (some r) os e =
      elim (Option-cases (find_outcome r.winning_outcome_id os)) [
        | inl missing ↦ let e' = (rw (missing) at e) in cc
        | inr (o, found) ↦
            let e' = (rw (found) at e) in
            (r, o, refl, refl, found, some-injective _ _ (some-injective _ _ e'))
      ]
  shown_name-found resolved none os e = cc
  shown_name-found active r os e = cc
  shown_name-found pending r os e = cc
  shown_name-found paused r os e = cc

  won_mark :
      (o : Outcome D) {s : MarketStatus} {r : Option MarketResolution} {r' : MarketResolution}
      → s ≡ resolved
      → r ≡ some r'
      → r'.winning_outcome_id ≡ o.id
      → mark_of s r o ≡ some true
  won_mark o e e' own = rw (e, e') (ap some ((eqb_ℤ_iff _ _).1 own))

  -- Where the page names the outcome that a resolution found, an outcome of the market has that name and is marked
  -- as the one that has won.
  pub resolution_shown-IsTheWinner :
      (market : MarketView D) (name : String)
      → resolution_shown market ≡ some (some name)
      → (o : Outcome D) × IsTheWinner market name o
  unfolding resolution_shown mark
  resolution_shown-IsTheWinner market name e =
      let (r, o, status, resolution, found, named) =
        shown_name-found market.status market.resolution market.outcomes e in
      let (listed, own) = find_outcome-listed r.winning_outcome_id market.outcomes found in
      (o, record { listed = listed; name_eq = named; marked = won_mark o status resolution own })
