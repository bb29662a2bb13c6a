-- ===== src/Charts/Ordered.antt =====
-- frontend/seer/src/ui/markets/details/PriceCharts.tsx on the charts that frontend/seer/src/app/WsProvider.tsx updates:
-- when the times of a line are ascending, as the drawing library asks for.
use seer.Common.{
  ◌∙◌, ℕ, ◌*◌, ◌/◌, ◌≡◌, ◌↔◌, ap, sym, subst, true, false, List, [], ◌∷◌, map, arith, Bool-cases,
  inl, inr,
}
use seer.Common.Int.{ℤ, pos, negsuc, ltb_ℤ, leb_ℤ, eqb_ℤ, floor_div}
use seer.Definitions.{day, week, month, all_time, Timeframe, PriceChartDataPoint}
use seer.Numbers.{Numbers}
use seer.Live.{with_point, bucket_date}
use seer.Charts.{AreaData, area_data}

module _ {F : Type 0} where
  -- Each point is later than the one before.
  abbrev pub IsAscending : List (AreaData F) → Type 0
  IsAscending [] = Unit
  IsAscending (p ∷ []) = Unit
  IsAscending (p ∷ q ∷ ps) = (ltb_ℤ p.time q.time ≡ true) × IsAscending (q ∷ ps)

module _ {D : Type 0} where
  -- The last point is not after the date.
  abbrev pub EndsBy : ℤ → List (PriceChartDataPoint D) → Type 0
  EndsBy date [] = Unit
  EndsBy date (p ∷ []) = leb_ℤ p.date date ≡ true
  EndsBy date (p ∷ q ∷ ps) = EndsBy date (q ∷ ps)

-- Before a date on a whole second, or at it.
seconds_before :
    (date : ℤ) (k : ℕ)
    → eqb_ℤ date (pos (1000 * k)) ≡ false
    → ltb_ℤ (floor_div date 1000) (floor_div (pos (1000 * k)) 1000) ≡ leb_ℤ date (pos (1000 * k))
seconds_before (pos d) k apart = ground arith
seconds_before (negsuc d) k apart = ground arith

leb_of_same : (a b : ℤ) → eqb_ℤ a b ≡ true → leb_ℤ a b ≡ true
leb_of_same (pos a) (pos b) e = ground arith
leb_of_same (negsuc a) (negsuc b) e = ground arith
leb_of_same (pos a) (negsuc b) e = cc
leb_of_same (negsuc a) (pos b) e = cc

-- A bucket begins on a whole second.
bucket_date-seconds :
    (t : Timeframe) (now : ℕ) → (k : ℕ) × (bucket_date t (pos now) ≡ pos (1000 * k))
bucket_date-seconds day now = (now / 300000 * 300, ap pos (omega arith))
bucket_date-seconds week now = (now / 3600000 * 3600, ap pos (omega arith))
bucket_date-seconds month now = (now / 14400000 * 14400, ap pos (omega arith))
bucket_date-seconds all_time now = (now / 86400000 * 86400, ap pos (omega arith))

module _ (N : Numbers) (one : N.F) where
  open N use {D}

  abbrev line : List (PriceChartDataPoint D) → List (AreaData N.F)
  line l = map (area_data N one) l

  module _ (price : D) (k : ℕ) where
    pushed_on_one :
        (p : PriceChartDataPoint D)
        → IsAscending (line (with_point (pos (1000 * k)) price (p ∷ [])))
          ↔ (leb_ℤ p.date (pos (1000 * k)) ≡ true)
    unfolding with_point
    pushed_on_one p = elim (Bool-cases (eqb_ℤ p.date (pos (1000 * k)))) [
      | inl same ↦
          let at' : leb_ℤ p.date (pos (1000 * k)) ≡ true =
            leb_of_same p.date (pos (1000 * k)) same in
          rw same ((λ h. at'), λ h. tt)
      | inr apart ↦
          let e = seconds_before p.date k apart in rw apart ((λ h. sym e ∙ h.0), λ h. (e ∙ h, tt))
    ]

    pushed_below :
        (p q : PriceChartDataPoint D) (l : List (PriceChartDataPoint D))
        → ltb_ℤ (floor_div p.date 1000) (floor_div q.date 1000) ≡ true
        → IsAscending (line (p ∷ with_point (pos (1000 * k)) price (q ∷ l)))
          ↔ IsAscending (line (with_point (pos (1000 * k)) price (q ∷ l)))
    unfolding with_point
    pushed_below p q [] h = elim (Bool-cases (eqb_ℤ q.date (pos (1000 * k)))) [
      | inl same ↦ rw same ((λ a. a.1), λ a. (h, a))
      | inr apart ↦ rw apart ((λ a. a.1), λ a. (h, a))
    ]
    pushed_below p q (r ∷ l) h = ((λ a. a.1), λ a. (h, a))

    pushed_IsAscending :
        (l : List (PriceChartDataPoint D))
        → IsAscending (line l)
        → IsAscending (line (with_point (pos (1000 * k)) price l)) ↔ EndsBy (pos (1000 * k)) l
    unfolding with_point
    pushed_IsAscending [] a = ((λ h. tt), λ h. tt)
    pushed_IsAscending (p ∷ []) a = pushed_on_one p
    pushed_IsAscending (p ∷ q ∷ l) (e, a) =
        let step = pushed_below p q l e in
        let rest = pushed_IsAscending (q ∷ l) a in
        ((λ h. rest.0 (step.0 h)), λ h. step.1 (rest.1 h))

  -- Let the times of a line be ascending. After an update at a time from 1970 on has put a price into the chart, they are
  -- ascending exactly if the last point was not after the start of the present bucket.
  pub with_point-IsAscending_iff :
      (t : Timeframe) (now : ℕ) (price : D) (l : List (PriceChartDataPoint D))
      → IsAscending (map (area_data N one) l)
      → IsAscending (map (area_data N one) (with_point (bucket_date t (pos now)) price l))
        ↔ EndsBy (bucket_date t (pos now)) l
  with_point-IsAscending_iff t now price l a =
      let (k, e) = bucket_date-seconds t now in
      subst
        (λ bucket.
          IsAscending (map (area_data N one) (with_point bucket price l)) ↔ EndsBy bucket l)
        (sym e) (pushed_IsAscending price k l a)
