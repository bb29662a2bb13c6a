-- ===== src/Scrolling.antt =====
-- frontend/seer/src/ui/markets/home/categories/CategoriesMenu.tsx: the row of categories that is scrolled by two
-- buttons. Lengths are whole pixels, and `four_fifths` is `Math.round(clientWidth * 0.8)`; since scrolling ends at
-- 0 and at the end, the place that it goes to is given rather than the amount, which may be negative.
pub mod Reach
mod Tests
use seer.Common.{ℕ, ◌+◌, ◌-◌, min, Bool, true, false, not, if◌then◌else◌, leb}

-- What the element says of itself.
pub record Row : Type 0 where
  pub client_width : ℕ
  pub scroll_left : ℕ
  pub scroll_width : ℕ

pub data Disabled : Type 0 where
  left right neither : Disabled

abbrev pub tolerance : ℕ
tolerance = 2

abbrev pub max_scroll_left : Row → ℕ
max_scroll_left row = row.scroll_width - row.client_width

-- `scrollByAmount(1)`: the wanted amount, but not beyond what remains.
abbrev pub scroll_right : (ℕ → ℕ) → Row → ℕ
scroll_right four_fifths row =
    row.scroll_left + min (four_fifths row.client_width) (max_scroll_left row - row.scroll_left)

-- `scrollByAmount(-1)`: the wanted amount, but not below 0.
abbrev pub scroll_left_to : (ℕ → ℕ) → Row → ℕ
scroll_left_to four_fifths row =
    row.scroll_left - min (four_fifths row.client_width) row.scroll_left

abbrev pub at_start : Row → Bool
at_start row = leb row.scroll_left tolerance

-- `scrollLeft + clientWidth >= scrollWidth - tolerance`
abbrev pub at_end : Row → Bool
at_end row = leb row.scroll_width (row.scroll_left + row.client_width + tolerance)

unfoldable pub handle_scroll : Row → Disabled
handle_scroll row = if at_start row then left else if at_end row then right else neither
