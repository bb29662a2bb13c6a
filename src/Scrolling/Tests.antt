-- ===== src/Scrolling/Tests.antt =====
-- The row of categories at concrete sizes.
use seer.Common.{ℕ, ◌+◌, ◌*◌, ◌/◌, ◌≡◌, refl}
use seer.Scrolling.{Row, left, handle_scroll, scroll_right}

abbrev four_fifths : ℕ → ℕ
four_fifths n = (n * 8 + 5) / 10

abbrev fitting : Row
fitting = record { client_width = 300; scroll_left = 0; scroll_width = 300 }

-- In a row that fits, the right button is shown.
fitting_shows_right : handle_scroll fitting ≡ left
unfolding handle_scroll
fitting_shows_right = refl

-- And it moves nothing.
fitting_stays : scroll_right four_fifths fitting ≡ 0
fitting_stays = refl
