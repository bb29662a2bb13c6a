-- ===== src/Charts/Places.antt =====
-- frontend/seer/src/ui/markets/details/PriceCharts.tsx and ui/markets/home/PriceChartDrawer.tsx: where a tooltip is.
use seer.Common.{
  ℕ, ◌+◌, ◌*◌, ◌≤◌, ◌<◌, ◌≡◌, ◌⊎◌, inl, inr, refl, true, some, arith, Bool-cases, ltb, ltb→lt,
  ltb-false, ◌-◌,
}
use seer.Common.Int.{ℤ, pos, sub-pos, add-pos}
use seer.Charts.{Sizes, MouseEvent, placed, tooltip_place, is_time, on_chart}

-- From `start` on, a length is within the container and leaves the pointer free, by the margin at least.
pub record IsBeside (point client offset : ℕ) (start : ℤ) : Type 0 where
  pub at : ℕ
  pub start_eq : start ≡ pos at
  pub inside : at + offset ≤ client
  pub apart : (point + 15 ≤ at) ⊎ (at + offset + 15 ≤ point)

module _ (point client offset : ℕ) (room : 2 * offset + 30 ≤ client) (within : point ≤ client) where
  no_room : client - offset < point + 15 → (point - 15 - offset) + offset + 15 ≡ point
  no_room h = omega arith

  placed-IsBeside : IsBeside point client offset (placed (pos point) client offset)
  unfolding placed
  placed-IsBeside =
      let free = sub-pos client offset (omega arith) in
      let next = add-pos point 15 in
      elim (Bool-cases (ltb (client - offset + 0) (point + 15 + 0))) [
        | inl full ↦
            let over : client - offset < point + 15 = omega (arith, ltb→lt _ _ full) in
            let before = sub-pos point 15 (omega (arith, no_room over)) in
            let start = sub-pos (point - 15) offset (omega (arith, no_room over)) in
            rw (free, next, full, before, start)
              (record {
                at = point - 15 - offset;
                start_eq = refl;
                inside = omega (arith, no_room over);
                apart = inr (omega (arith, no_room over));
              })
        | inr some_left ↦
            rw (free, next, some_left)
              (record {
                at = point + 15;
                start_eq = refl;
                inside = omega (arith, ltb-false _ _ some_left);
                apart = inl (omega arith);
              })
      ]

-- A container has room for its tooltip on either side of the pointer.
pub record HasRoom (s : Sizes) : Type 0 where
  pub width_le : 2 * s.offset_width + 30 ≤ s.client_width
  pub height_le : 2 * s.offset_height + 30 ≤ s.client_height

-- The tooltip is within the container, and beside, and above or below, the pointer.
pub record IsPlaced (s : Sizes) (x y : ℕ) (place : ℤ × ℤ) : Type 0 where
  pub left_beside : IsBeside x s.client_width s.offset_width place.0
  pub top_beside : IsBeside y s.client_height s.offset_height place.1

pos-not_negative : (x y : ℕ) → on_chart (some (pos x, pos y)) ≡ true
pos-not_negative x y = ground arith

-- With the pointer at a time that is not 0 and in a container that has room for two tooltips and their margins in each
-- direction, the tooltip is shown within the container, and beside the pointer by the margin at least, in both
-- directions.
pub tooltip_place-IsPlaced :
    (s : Sizes) (param : MouseEvent) (x y : ℕ)
    → HasRoom s
    → is_time param.time ≡ true
    → param.point ≡ some (pos x, pos y)
    → x ≤ s.client_width
    → y ≤ s.client_height
    → (place : ℤ × ℤ) × (tooltip_place s param ≡ some place) × IsPlaced s x y place
unfolding tooltip_place
tooltip_place-IsPlaced s param x y room timed at' hx hy = (
  _,
  rw (timed, at', pos-not_negative x y) refl,
  record {
    left_beside = placed-IsBeside x s.client_width s.offset_width room.width_le hx;
    top_beside = placed-IsBeside y s.client_height s.offset_height room.height_le hy;
  },
)
