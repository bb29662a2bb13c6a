-- ===== src/Cards/Top.antt =====
-- frontend/seer/src/ui/markets/home/MarketCard.tsx: which outcomes are on a card.
use mathlib.Core.List.{Perm}
use seer.Common.{zero, min, ◌≡◌, Bool, false, List, ◌++◌, length, All}
use seer.Definitions.{Outcome, MarketView}
use seer.Numbers.{Numbers}
use seer.Lslmsr.Sort.{IsInOrder}
use seer.Cards.{comes_after}

module _ (N : Numbers) where
  open N use {D, zero as none_at_all, gt, to_number, minus}

  -- The difference of b and a is positive.
  abbrev pub is_more : D → D → Bool
  is_more b a = gt (to_number (minus b a)) none_at_all

  -- The outcomes `shown` are the first of the market in its order: as many as there is room for, in that order,
  -- and none of them comes after one that is left out.
  pub record AreTop (market : MarketView D) (shown : List (Outcome D)) : Type 0 where
    pub hidden : List (Outcome D)
    pub outcomes_perm : Perm (shown ++ hidden) market.outcomes
    pub count_eq : length shown ≡ min 2 (length market.outcomes)
    pub in_order : IsInOrder (comes_after N market.outcome_sort) shown
    pub before : All (λ o. All (λ h. comes_after N market.outcome_sort o h ≡ false) hidden) shown
