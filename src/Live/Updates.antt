-- ===== src/Live/Updates.antt =====
-- The market updates of frontend/seer/src/app/WsProvider.tsx, one and many.
use mathlib.Core.List.{Perm}
use mathlib.Core.List.Perm
use seer.Common.{
  String, ◌≡◌, ◌≢◌, ◌⊎◌, inl, inr, refl, sym, ap, subst, true, false, Option, none, some, List, [],
  ◌∷◌, map, Bool-cases,
}
use seer.Common.Int.{ℤ, leb_ℤ}
use seer.Common.Result.{ok}
use seer.Definitions.{Outcome, MarketView, PriceChart}
use seer.Messages.{MarketUpdate, OutcomeUpdate}
use seer.Numbers.{Numbers}
use seer.Lslmsr.KeptOutcomes.{identity, prices_for_market-perm}
use seer.Live.{
  charts_after, requantified, find_update, with_quantity, with_charts, apply_update,
  on_known_market,
}

module _ (N : Numbers) where
  open N use {D}

  -- An outcome's id and name, and the quantity that it has after the update.
  abbrev pub after_update : MarketUpdate D → Outcome D → ℤ × String × D
  after_update u o = (o.id, o.name, (with_quantity u.outcomes o).quantity)

  abbrev pub held : Outcome D → ℤ × String × D
  held o = (o.id, o.name, o.quantity)

  -- The market m' is m after the update: its version and volume are the update's, its outcomes are those of
  -- m in some order, with the quantities of the update where it has them, and all else is kept.
  pub record IsUpdated (u : MarketUpdate D) (m m' : MarketView D) : Type 0 where
    pub version_eq : m'.version ≡ u.market_version
    pub kept : m' ≡ record m {
      outcomes = m'.outcomes;
      total_volume = u.total_volume;
      version = u.market_version;
    }
    pub outcomes_perm : Perm (map held m'.outcomes) (map (after_update u) m.outcomes)

  abbrev first_three : ℤ × String × D × Option (List (PriceChart D)) → ℤ × String × D
  first_three (i, n, q, _) = (i, n, q)

  held-charts_after :
      (now : ℤ) (o : Outcome D) (charts : Option (List (PriceChart D)))
      → held (charts_after now o charts) ≡ held o
  held-charts_after now o none = refl
  held-charts_after now o (some charts) = refl

  map-held-with_charts :
      (now : ℤ) (os : List (Outcome D))
      → map held (map (with_charts now) os) ≡ map first_three (map (identity N) os)
  map-held-with_charts now [] = refl
  map-held-with_charts now (o ∷ os) =
      cc (held-charts_after now o o.price_charts, map-held-with_charts now os)

  held-requantified :
      (o : Outcome D) (v : Option (OutcomeUpdate D))
      → held (requantified o v) ≡ (o.id, o.name, (requantified o v).quantity)
  held-requantified o none = refl
  held-requantified o (some v) = refl

  map-held-with_quantity :
      (u : MarketUpdate D) (os : List (Outcome D))
      → map first_three (map (identity N) (map (with_quantity u.outcomes) os))
        ≡ map (after_update u) os
  map-held-with_quantity u [] = refl
  map-held-with_quantity u (o ∷ os) =
      cc (held-requantified o (find_update o.id u.outcomes), map-held-with_quantity u os)

  pub map-ne-nil : {A : Type 0} {B : Type 0} (f : A → B) (l : List A) → l ≢ [] → map f l ≢ []
  map-ne-nil f [] ne = absurd (ne refl)
  map-ne-nil f (x ∷ l) ne = cc

  pub apply_update-IsUpdated :
      (now : ℤ) (u : MarketUpdate D) (m : MarketView D)
      → m.outcomes ≢ []
      → (m' : MarketView D) × (apply_update N now u m ≡ ok m') × IsUpdated u m m'
  unfolding apply_update
  apply_update-IsUpdated now u m ne =
      let asked = record m {
        outcomes = map (with_quantity u.outcomes) m.outcomes;
        total_volume = u.total_volume;
      } in
      let (p, e, kept, perm) =
        prices_for_market-perm N asked (map-ne-nil (with_quantity u.outcomes) m.outcomes ne) in
      (
        record p { outcomes = map (with_charts now) p.outcomes; version = u.market_version },
        rw e refl,
        record {
          version_eq = refl;
          kept =
              ap
                (λ (q : MarketView D). record q {
                  outcomes = map (with_charts now) p.outcomes;
                  version = u.market_version;
                })
                kept;
          outcomes_perm =
              subst (λ l. Perm l (map (after_update u) m.outcomes))
                (sym (map-held-with_charts now p.outcomes))
                (subst (Perm (map first_three (map (identity N) p.outcomes)))
                  (map-held-with_quantity u m.outcomes) (Perm.map first_three perm));
        },
      )

  -- An update leaves a market with outcomes as it was, if it is not newer; if it is, the market is updated:
  -- the version and the volume are the update's, the outcomes are the same ones in some order, with the
  -- quantities that the update has for them, and all but the outcomes is kept.
  pub on_known_market_lem :
      (now : ℤ) (u : MarketUpdate D) (m : MarketView D)
      → m.outcomes ≢ []
      → (m' : MarketView D) × (on_known_market N now u m ≡ ok m')
        × (((leb_ℤ u.market_version m.version ≡ true) × (m' ≡ m))
            ⊎ ((leb_ℤ u.market_version m.version ≡ false) × IsUpdated u m m'))
  unfolding on_known_market
  on_known_market_lem now u m ne = elim (Bool-cases (leb_ℤ u.market_version m.version)) [
    | inl stale ↦ (m, rw stale refl, inl (stale, refl))
    | inr newer ↦
        let (m', e, h) = apply_update-IsUpdated now u m ne in (m', rw newer e, inr (newer, h))
  ]
