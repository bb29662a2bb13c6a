-- ===== src/Charts/Tests.antt =====
-- The charts at concrete points.
use seer.Samples.{thousandths, outcome}
use seer.Common.{ℕ, ◌≡◌, ◌↔◌, refl, some, List, [], ◌∷◌, map}
use seer.Common.Int.{pos, ◌-ℤ◌, ◌+ℤ◌}
use seer.Definitions.{PriceChartDataPoint, Outcome, day}
use seer.Live.{with_point, bucket_date}
use seer.Charts.{area_data, series_from, find_chart, Sizes, MouseEvent, tooltip_place, placed}
use seer.Charts.Ordered.{IsAscending, EndsBy, with_point-IsAscending_iff}

abbrev sizes : Sizes
sizes = record { client_width = 400; client_height = 100; offset_width = 90; offset_height = 30 }

-- Near the right edge the tooltip is on the left of the pointer.
abbrev move : MouseEvent
move = record { time = some (pos 60); point = some (pos 350, pos 20) }

move_shown : tooltip_place sizes move ≡ some (pos 245, pos 35)
unfolding tooltip_place placed ◌-ℤ◌ ◌+ℤ◌
move_shown = refl

abbrev points : List (PriceChartDataPoint ℕ)
points =
    record { date = pos 0; timestamp = pos 0; price = 500 }
    ∷ record { date = pos 600000; timestamp = pos 600000; price = 510 }
    ∷ []

with_point-IsAscending_iff_example :
    IsAscending
      (map (area_data thousandths 1000) (with_point (bucket_date day (pos 400000)) 520 points))
    ↔ EndsBy (bucket_date day (pos 400000)) points
with_point-IsAscending_iff_example =
    with_point-IsAscending_iff thousandths 1000 day 400000 520 points (refl, tt)

-- Only the outcomes with charts have lines; the colors are by the place of the outcome.
abbrev charted : Outcome ℕ
charted = record (outcome 8 1) {
  price_charts = some (record { timeframe = day; prices = points } ∷ []);
}

lines_drawn :
    series_from thousandths 1000 day 0 (outcome 7 1 ∷ charted ∷ [])
    ≡ record {
      outcome_id = pos 8;
      color = 1;
      points =
          some (record { time = pos 0; value = 500 } ∷ record { time = pos 600; value = 510 } ∷ []);
    }
      ∷ []
unfolding series_from find_chart
lines_drawn = refl
