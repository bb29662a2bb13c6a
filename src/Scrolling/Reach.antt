-- ===== src/Scrolling/Reach.antt =====
-- frontend/seer/src/ui/markets/home/categories/CategoriesMenu.tsx: what the buttons that are shown do.
use seer.Common.{ℕ, ◌+◌, ◌≤◌, ◌<◌, ◌≢◌, refl, arith, leb→le, leb-false, Bool-cases, inl, inr}
use seer.Scrolling.{
  Row, left, right, max_scroll_left, scroll_right, scroll_left_to, at_start, at_end, handle_scroll,
  tolerance,
}

-- Both buttons stay in the row; one that is shown moves it.
pub record IsScrolled (four_fifths : ℕ → ℕ) (row : Row) : Type 0 where
  pub right_le : scroll_right four_fifths row ≤ max_scroll_left row
  pub left_le : scroll_left_to four_fifths row ≤ row.scroll_left
  pub moves_left : handle_scroll row ≢ left → scroll_left_to four_fifths row < row.scroll_left
  pub moves_right : handle_scroll row ≢ right → row.scroll_left < scroll_right four_fifths row

-- The left button is hidden at the start, and the right one only at an end that is no start.
not_left : (row : Row) → handle_scroll row ≢ left → tolerance < row.scroll_left
unfolding handle_scroll
not_left row ne = elim (Bool-cases (at_start row)) [
  | inl start ↦ absurd (ne (rw start refl))
  | inr later ↦ leb-false row.scroll_left tolerance later
]

not_right :
    (row : Row)
    → row.client_width + tolerance < row.scroll_width
    → handle_scroll row ≢ right
    → row.scroll_left + row.client_width < row.scroll_width
unfolding handle_scroll
not_right row wide ne = elim (Bool-cases (at_start row)) [
  | inl start ↦ omega (arith, leb→le row.scroll_left tolerance start)
  | inr later ↦ elim (Bool-cases (at_end row)) [
    | inl end ↦ absurd (ne (rw (later, end) refl))
    | inr before ↦
        omega (
          arith,
          leb-false row.scroll_width (row.scroll_left + row.client_width + tolerance) before,
        )
  ]
]

-- In a row that is wider than what is shown of it by more than the tolerance, both buttons stay in the row, and
-- one that is shown moves it, if four fifths of the shown width are at least a pixel.
pub handle_scroll-IsScrolled :
    (four_fifths : ℕ → ℕ) (row : Row)
    → row.client_width + tolerance < row.scroll_width
    → row.scroll_left ≤ max_scroll_left row
    → 0 < four_fifths row.client_width
    → IsScrolled four_fifths row
handle_scroll-IsScrolled four_fifths row wide within some_width = record {
  right_le = omega arith;
  left_le = omega arith;
  moves_left = λ shown. let later = not_left row shown in omega arith;
  moves_right = λ shown. let before = not_right row wide shown in omega arith;
}
