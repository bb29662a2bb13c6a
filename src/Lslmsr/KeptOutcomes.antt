-- ===== src/Lslmsr/KeptOutcomes.antt =====
-- `pricesForMarket` of lslmsr.ts: what it does not touch in the outcomes.
use mathlib.Core.List.{Perm}
use mathlib.Core.List.Perm
use seer.Common.{ℕ, suc, String, Option, ◌≡◌, ◌≢◌, refl, ap, ◌∙◌, subst, List, [], ◌∷◌, map}
use seer.Common.Int.{ℤ}
use seer.Common.Result.{ok}
use seer.Definitions.{Outcome, MarketView, PriceChart}
use seer.Numbers.{Numbers}
use seer.Lslmsr.Prices.{with_prices, normalize, normalized, in_sort_order, prices_for_market}
use seer.Lslmsr.MarketPrices.{quantities_total, in_sort_order-perm}

module _ (N : Numbers) where
  open N use {F, D}

  -- What the prices are not written into.
  abbrev pub identity : Outcome D → ℤ × String × D × Option (List (PriceChart D))
  identity o = (o.id, o.name, o.quantity, o.price_charts)

  map-identity-with_prices :
      (p : List F) (i : ℕ) (os : List (Outcome D))
      → map identity (with_prices N p i os) ≡ map identity os
  unfolding with_prices
  map-identity-with_prices p i [] = refl
  map-identity-with_prices p i (o ∷ os) =
      ap (λ l. identity o ∷ l) (map-identity-with_prices p (suc i) os)

  map-identity-normalize :
      (total : D) (os : List (Outcome D))
      → map identity (map (normalize N total) os) ≡ map identity os
  map-identity-normalize total [] = refl
  map-identity-normalize total (o ∷ os) = ap (λ l. identity o ∷ l) (map-identity-normalize total os)

  map-identity-normalized :
      (p : List F) (os : List (Outcome D)) → map identity (normalized N p os) ≡ map identity os
  map-identity-normalized p os =
      map-identity-normalize _ (with_prices N p 0 os) ∙ map-identity-with_prices p 0 os

  -- A market with outcomes gets prices, and its outcomes are the same but for the prices, in some order.
  pub prices_for_market-perm :
      (m : MarketView D)
      → m.outcomes ≢ []
      → (m' : MarketView D) × (prices_for_market N m ≡ ok m')
        × (m' ≡ record m { outcomes = m'.outcomes })
        × Perm (map identity m'.outcomes) (map identity m.outcomes)
  unfolding prices_for_market
  prices_for_market-perm m ne =
      let (ps, priced, len) = quantities_total N m ne in
      (
        record m { outcomes = in_sort_order N m.outcome_sort (normalized N ps m.outcomes) },
        rw priced refl,
        refl,
        subst (Perm (map identity (in_sort_order N m.outcome_sort (normalized N ps m.outcomes))))
            (map-identity-normalized ps m.outcomes)
            (Perm.map identity (in_sort_order-perm N m.outcome_sort (normalized N ps m.outcomes))),
      )
