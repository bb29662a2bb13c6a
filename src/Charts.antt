-- ===== src/Charts.antt =====
-- frontend/seer/src/ui/markets/details/PriceCharts.tsx and ui/markets/home/PriceChartDrawer.tsx: the data that is handed
-- to the charts, and their tooltips. The charts are drawn by a third-party library; coordinates are whole pixels.
pub mod Places
pub mod Ordered
mod Tests
use seer.Common.{
  ℕ, zero, suc, ◌%◌, ◌+◌, Bool, true, false, not, ◌&&◌, ◌||◌, Option, none, some, List, [], ◌∷◌,
  map, if◌then◌else◌, ltb,
}
use seer.Common.Int.{ℤ, pos, ◌-ℤ◌, ◌+ℤ◌, ltb_ℤ, eqb_ℤ, floor_div}
use seer.Definitions.{
  Timeframe, day, week, month, all_time, PriceChartDataPoint, PriceChart, Outcome, BetSide, y, n,
}
use seer.Numbers.{Numbers}

-- A point of a drawn line: seconds, and a number.
pub record AreaData (F : Type 0) : Type 0 where
  pub time : ℤ
  pub value : F

-- A line that is drawn for an outcome; `data` is missing if the outcome has no chart of the timeframe.
pub record Series (F : Type 0) : Type 0 where
  pub outcome_id : ℤ
  pub color : ℕ
  pub points : Option (List (AreaData F))

abbrev pub same_timeframe : Timeframe → Timeframe → Bool
same_timeframe day day = true
same_timeframe week week = true
same_timeframe month month = true
same_timeframe all_time all_time = true
same_timeframe _ _ = false

module _ {D : Type 0} where
  unfoldable pub find_chart : Timeframe → List (PriceChart D) → Option (PriceChart D)
  find_chart t [] = none
  find_chart t (c ∷ cs) = if same_timeframe c.timeframe t then some c else find_chart t cs

-- `colorsOutcomes.length`
abbrev pub color_count : ℕ
color_count = 5

module _ (N : Numbers) (one : N.F) where
  open N use {F, D, sub, to_number}

  abbrev pub area_data : PriceChartDataPoint D → AreaData F
  area_data point = record { time = floor_div point.date 1000; value = to_number point.price }

  abbrev pub chart_points : Option (PriceChart D) → Option (List (AreaData F))
  chart_points none = none
  chart_points (some chart) = some (map area_data chart.prices)

  abbrev pub series_for :
      Timeframe → ℕ → Outcome D → Option (List (PriceChart D)) → List (Series F) → List (Series F)
  series_for t index o none rest = rest
  series_for t index o (some []) rest = rest
  series_for t index o (some (c ∷ cs)) rest =
      record {
        outcome_id = o.id;
        color = index % color_count;
        points = chart_points (find_chart t (c ∷ cs));
      }
      ∷ rest

  -- The lines of the outcomes from the index on.
  unfoldable pub series_from : Timeframe → ℕ → List (Outcome D) → List (Series F)
  series_from t index [] = []
  series_from t index (o ∷ os) = series_for t index o o.price_charts (series_from t (suc index) os)

  -- PriceChartDrawer's data: the price of the side.
  abbrev pub side_value : BetSide → D → F
  side_value y price = to_number price
  side_value n price = sub one (to_number price)

  abbrev pub side_data : BetSide → List (PriceChartDataPoint D) → List (AreaData F)
  side_data side points =
      map
        (λ (p : PriceChartDataPoint D). record {
          time = floor_div p.date 1000;
          value = side_value side p.price;
        })
        points

-- Where the pointer is, and the time under it, which is missing outside of the data.
pub record MouseEvent : Type 0 where
  pub time : Option ℤ
  pub point : Option (ℤ × ℤ)

-- The sizes of a container and its tooltip.
pub record Sizes : Type 0 where
  pub client_width : ℕ
  pub client_height : ℕ
  pub offset_width : ℕ
  pub offset_height : ℕ

abbrev pub tooltip_margin : ℕ
tooltip_margin = 15

-- Beside the pointer, or on its other side if there is no room.
unfoldable pub placed : (point : ℤ) (client offset : ℕ) → ℤ
placed point client offset =
    if ltb_ℤ (pos client -ℤ pos offset) (point +ℤ pos tooltip_margin)
    then point -ℤ pos tooltip_margin -ℤ pos offset
    else point +ℤ pos tooltip_margin

abbrev pub is_time : Option ℤ → Bool
is_time none = false
is_time (some t) = not (eqb_ℤ t (pos 0))

abbrev pub on_chart : Option (ℤ × ℤ) → Bool
on_chart none = false
on_chart (some (left, top)) = not (ltb_ℤ left (pos 0) || ltb_ℤ top (pos 0))

abbrev pub place_at : Sizes → Option (ℤ × ℤ) → Option (ℤ × ℤ)
place_at s none = none
place_at s (some (left, top)) =
    some (placed left s.client_width s.offset_width, placed top s.client_height s.offset_height)

-- The left and top of the tooltip, where it is shown.
unfoldable pub tooltip_place : Sizes → MouseEvent → Option (ℤ × ℤ)
tooltip_place s param =
    if is_time param.time && on_chart param.point then place_at s param.point else none

module _ {F : Type 0} where
  -- PriceChartDrawer's tooltip also needs a value under the pointer.
  unfoldable pub drawer_tooltip :
      Sizes → MouseEvent → Option (AreaData F) → Option ((ℤ × ℤ) × AreaData F)
  drawer_tooltip s param none = none
  drawer_tooltip s param (some value) = with_value (tooltip_place s param)
    where
      with_value : Option (ℤ × ℤ) → Option ((ℤ × ℤ) × AreaData F)
      with_value none = none
      with_value (some place) = some (place, value)
