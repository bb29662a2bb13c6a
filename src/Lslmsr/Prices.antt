-- ===== src/Lslmsr/Prices.antt =====
-- The prices of lslmsr.ts and math_util.ts: `computeB`, `cost`, `softmaxB`, `prices` and
-- `pricesForMarket`, which returns the market that the source changes in place.
use mathlib.Core.List.{foldl}
use seer.Common.{ℕ, zero, suc, Bool, List, [], ◌∷◌, map, ◌==◌, if◌then◌else◌}
use seer.Common.Result.{Result, ok, thrown, ◌>>=◌}
use seer.Definitions.{Outcome, MarketView, OutcomeSort, by_price, by_position}
use seer.Numbers.{Numbers}
use seer.Lslmsr.Sort.{sort}

module _ (N : Numbers) where
  open N use {
    F, zero as nought, nan, add, mul, div, max, neg, exp, log, gt, sub, D, d_zero, d_one, of_number,
    to_number, plus, minus, over,
  }

  unfoldable pub compute_b : List F → F → F
  compute_b q alpha = mul alpha (foldl add nought q)

  unfoldable pub cost : List F → F → F
  unfolding compute_b
  cost q alpha =
      let b = compute_b q alpha in
      let sum_exp = foldl (λ a qi. add a (exp (div qi b))) nought q in mul b (log sum_exp)

  -- `values.reduce((a, b) => a + b)`, for values that are not empty
  abbrev pub sum_of : List F → F
  sum_of [] = nought
  sum_of (v ∷ vs) = foldl add v vs

  -- `reduce` with no first value throws on an empty array.
  unfoldable pub softmax_b : List F → F → Result (List F)
  unfolding compute_b
  softmax_b [] alpha = thrown
  softmax_b (q₀ ∷ q) alpha =
      let b = compute_b (q₀ ∷ q) alpha in
      let max_xi = div (foldl max q₀ q) b in
      let exp_values = map (λ qi. exp (sub (div qi b) max_xi)) (q₀ ∷ q) in
      let sum_exp = sum_of exp_values in ok (map (λ v. div v sum_exp) exp_values)

  -- The same commission is added to each softmax.
  abbrev pub with_commission : F → List F → List F
  with_commission alpha softmaxes =
      let sum_si = foldl (λ a s. add a (mul s (log s))) nought softmaxes in
      let commission = mul (neg sum_si) alpha in map (λ s. add s commission) softmaxes

  unfoldable pub prices : List F → F → Result (List F)
  unfolding softmax_b
  prices q alpha = do softmaxes ← softmax_b q alpha; ok (with_commission alpha softmaxes)

  -- `p[idx]`, in arithmetic
  abbrev pub at : List F → ℕ → F
  at [] i = nan
  at (x ∷ p) zero = x
  at (x ∷ p) (suc i) = at p i

  -- `p.filter((_, jdx) => jdx !== idx)`, from index jdx on
  unfoldable pub without : ℕ → ℕ → List F → List F
  without jdx idx [] = []
  without jdx idx (x ∷ p) =
      let rest = without (suc jdx) idx p in if jdx == idx then rest else x ∷ rest

  -- The outcomes from index idx on, with the prices of `p`.
  unfoldable pub with_prices : List F → ℕ → List (Outcome D) → List (Outcome D)
  unfolding without
  with_prices p idx [] = []
  with_prices p idx (o ∷ outcomes) =
      record o {
        price_yes = of_number (at p idx);
        price_no = foldl (λ a b. plus a (of_number b)) d_zero (without 0 idx p);
      }
      ∷ with_prices p (suc idx) outcomes

  abbrev pub normalize : D → Outcome D → Outcome D
  normalize sum_prices o =
      let yes' = over o.price_yes sum_prices in
      record o { price_yes_normalized = yes'; price_no_normalized = minus d_one yes' }

  -- The comparison of a with b is positive: b has the higher normalized price.
  abbrev pub after : Outcome D → Outcome D → Bool
  after a b = gt (to_number (minus b.price_yes_normalized a.price_yes_normalized)) nought

  abbrev pub in_sort_order : OutcomeSort → List (Outcome D) → List (Outcome D)
  in_sort_order by_price outcomes = sort after outcomes
  in_sort_order by_position outcomes = outcomes

  abbrev pub normalized : List F → List (Outcome D) → List (Outcome D)
  normalized p outcomes =
      let priced = with_prices p 0 outcomes in
      let sum_prices = foldl (λ a (o : Outcome D). plus a o.price_yes) d_zero priced in
      map (normalize sum_prices) priced

  unfoldable pub prices_for_market : MarketView D → Result (MarketView D)
  prices_for_market market = do
    let q = map (λ (o : Outcome D). o.quantity) market.outcomes
    p ← prices (map to_number q) (to_number market.alpha)
    ok (record market {
      outcomes = in_sort_order market.outcome_sort (normalized p market.outcomes);
    })
