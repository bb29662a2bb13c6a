-- ===== src/Lslmsr/MarketPrices.antt =====
-- `pricesForMarket` of lslmsr.ts: what it keeps of the market, which price each outcome gets, and the
-- order of the outcomes.
use mathlib.Core.List.{foldl, Perm}
use mathlib.Core.List.Perm
use seer.Common.{
  ℕ, zero, suc, ◌≡◌, ◌↔◌, ◌≢◌, refl, sym, ap, ◌∙◌, subst, true, false, List, [], ◌∷◌, map, arith,
  drop, length, length-map, All,
}
use seer.Common.Int.{ℤ}
use seer.Common.Result.{Result, ok, thrown, out_of_fuel, >>=-eq-ok}
use seer.Definitions.{Outcome, MarketView, OutcomeSort, by_price, by_position}
use seer.Numbers.{Numbers}
use seer.Lslmsr.Sort.{sort-perm, sort-All, IsInOrder, sort-IsInOrder}
use seer.Lslmsr.Prices.{
  softmax_b, prices, at, with_prices, normalize, normalized, after, in_sort_order,
  prices_for_market,
}

module _ (N : Numbers) where
  open N use {F, D, of_number, to_number, d_one, minus}

  -- The vector of numbers that the prices are computed from.
  abbrev pub quantities : MarketView D → List F
  quantities m = map to_number (map (λ (o : Outcome D). o.quantity) m.outcomes)

  pub prices_total :
      (q : List F) (alpha : F)
      → q ≢ []
      → (ps : List F) × (prices N q alpha ≡ ok ps) × (length ps ≡ length q)
  unfolding prices
  prices_total [] alpha ne = absurd (ne refl)
  prices_total (x ∷ q) alpha ne = (_, refl, simp length-map)

  map-ne-nil {ℓ κ} : {A : Type ℓ} {B : Type κ} (f : A → B) (l : List A) → l ≢ [] → map f l ≢ []
  map-ne-nil f [] ne = absurd (ne refl)
  map-ne-nil f (x ∷ l) ne = cc

  pub quantities_total :
      (m : MarketView D)
      → m.outcomes ≢ []
      → (ps : List F) × (prices N (quantities m) (to_number m.alpha) ≡ ok ps)
        × (length ps ≡ length m.outcomes)
  quantities_total m ne =
      let q = map (λ (o : Outcome D). o.quantity) m.outcomes in
      let (ps, priced, len) =
        prices_total (map to_number q) (to_number m.alpha)
          (map-ne-nil to_number q (map-ne-nil (λ (o : Outcome D). o.quantity) m.outcomes ne)) in
      (ps, priced, len ∙ length-map to_number q ∙ length-map _ m.outcomes)

  -- `pricesForMarket` throws exactly if the market has no outcome.
  pub prices_for_market-eq-thrown_iff :
      (m : MarketView D) → (prices_for_market N m ≡ thrown) ↔ (m.outcomes ≡ [])
  unfolding prices_for_market
  prices_for_market-eq-thrown_iff m =
      (only m.outcomes refl, λ e. rw e (unfold prices softmax_b in refl))
    where
      only :
          (os : List (Outcome D))
          → m.outcomes ≡ os
          → prices_for_market N m ≡ thrown
          → m.outcomes ≡ []
      only [] e h = e
      only (o ∷ os) e h = let (ps, priced, _) = quantities_total m (λ e'. cc) in cc (rw priced at h)

  -- Each outcome's id and quantity, with the price at its index.
  abbrev pub quoted : List (Outcome D) → List F → List (ℤ × D × D)
  quoted (o ∷ os) (p ∷ ps) = (o.id, o.quantity, of_number p) ∷ quoted os ps
  quoted _ _ = []

  abbrev pub quote : Outcome D → ℤ × D × D
  quote o = (o.id, o.quantity, o.price_yes)

  map-quote-normalize :
      (total : D) (os : List (Outcome D)) → map quote (map (normalize N total) os) ≡ map quote os
  map-quote-normalize total [] = refl
  map-quote-normalize total (o ∷ os) = ap (λ l. quote o ∷ l) (map-quote-normalize total os)

  at-drop :
      (p : List F) (i : ℕ) {x : F} {rest : List F}
      → drop i p ≡ x ∷ rest
      → (at N p i ≡ x) × (drop (suc i) p ≡ rest)
  at-drop [] zero e = cc
  at-drop [] (suc i) e = cc
  at-drop (y ∷ p) zero e = (cc, cc)
  at-drop (y ∷ p) (suc i) e = at-drop p i e

  map-quote-with_prices :
      (p : List F) (os : List (Outcome D)) (i : ℕ) (d : List F)
      → drop i p ≡ d
      → length d ≡ length os
      → map quote (with_prices N p i os) ≡ quoted os d
  unfolding with_prices
  map-quote-with_prices p [] i [] h e = refl
  map-quote-with_prices p [] i (x ∷ d) h e = absurd (omega arith)
  map-quote-with_prices p (o ∷ os) i [] h e = absurd (omega arith)
  map-quote-with_prices p (o ∷ os) i (x ∷ d) h e =
      let (price, later) = at-drop p i h in
      cc (price, map-quote-with_prices p os (suc i) d later (omega arith))

  pub in_sort_order-perm :
      (s : OutcomeSort) (os : List (Outcome D)) → Perm (in_sort_order N s os) os
  in_sort_order-perm by_price os = sort-perm (after N) os
  in_sort_order-perm by_position os = Perm.refl os

  -- What is said of the outcomes of a market whose prices have been computed.
  pub record ArePriced (m m' : MarketView D) (ps : List F) : Type 0 where
    pub others_kept : m' ≡ record m { outcomes = m'.outcomes }
    pub computed : prices N (quantities m) (to_number m.alpha) ≡ ok ps
    pub each_its_own : Perm (map quote m'.outcomes) (quoted m.outcomes ps)
    pub complement :
        All
          (λ (o : Outcome D). o.price_no_normalized ≡ minus d_one o.price_yes_normalized)
          m'.outcomes

  abbrev IsComplement : Outcome D → Type 0
  IsComplement o = o.price_no_normalized ≡ minus d_one o.price_yes_normalized

  normalize-IsComplement :
      (total : D) (os : List (Outcome D)) → All IsComplement (map (normalize N total) os)
  normalize-IsComplement total [] = tt
  normalize-IsComplement total (o ∷ os) = (refl, normalize-IsComplement total os)

  in_sort_order-All :
      (s : OutcomeSort) (os : List (Outcome D))
      → All IsComplement os
      → All IsComplement (in_sort_order N s os)
  in_sort_order-All by_price os h = sort-All (after N) IsComplement os h
  in_sort_order-All by_position os h = h

  -- If the market has outcomes, `pricesForMarket` returns it with nothing but the outcomes changed:
  -- they are the same ones with the same quantities, each with the price computed at its own index, in
  -- some order, and each no-price is what the yes-price leaves of one (both normalized).
  pub prices_for_market-ArePriced :
      (m : MarketView D)
      → m.outcomes ≢ []
      → (m' : MarketView D) × (ps : List F) × (prices_for_market N m ≡ ok m') × ArePriced m m' ps
  unfolding prices_for_market
  prices_for_market-ArePriced m ne =
      let (ps, priced, len) = quantities_total m ne in
      let os = with_prices N ps 0 m.outcomes in
      let total = foldl (λ a (o : Outcome D). N.plus a o.price_yes) N.d_zero os in
      let same : map quote (normalized N ps m.outcomes) ≡ quoted m.outcomes ps =
        map-quote-normalize total os ∙ map-quote-with_prices ps m.outcomes 0 ps refl len in
      (
        record m { outcomes = in_sort_order N m.outcome_sort (normalized N ps m.outcomes) },
        ps,
        rw priced refl,
        record {
          others_kept = refl;
          computed = priced;
          each_its_own =
              rw same at
                (Perm.map quote (in_sort_order-perm m.outcome_sort (normalized N ps m.outcomes)));
          complement =
              in_sort_order-All m.outcome_sort (normalized N ps m.outcomes)
                (normalize-IsComplement total os);
        },
      )

  abbrev outcomes_of : Result (MarketView D) → List (Outcome D)
  outcomes_of (ok m) = m.outcomes
  outcomes_of thrown = []
  outcomes_of out_of_fuel = []

  -- A market that is sorted by price has its outcomes in falling order of their normalized prices: none
  -- stands before one that compares as higher. (The comparison may not be positive both ways round.)
  pub prices_for_market-IsInOrder :
      (m : MarketView D) {m' : MarketView D}
      → ((a b : Outcome D) → after N a b ≡ true → after N b a ≡ false)
      → m.outcome_sort ≡ by_price
      → prices_for_market N m ≡ ok m'
      → IsInOrder (after N) m'.outcomes
  unfolding prices_for_market
  prices_for_market-IsInOrder m asym by e =
      let (ps, _, same) = >>=-eq-ok (prices N (quantities m) (to_number m.alpha)) _ e in
      let os = normalized N ps m.outcomes in
      subst (IsInOrder (after N)) (ap (λ s. in_sort_order N s os) (sym by) ∙ ap outcomes_of same)
        (sort-IsInOrder (after N) asym os)
