-- ===== src/Inputs/Menu.antt =====
-- frontend/seer/src/ui/menu_small_vertical/MenuVertical.tsx: where a menu opens, in whole pixels.
use seer.Common.{
  ℕ, ◌+◌, ◌≤◌, ◌≡◌, ◌==◌, refl, Bool, true, false, Option, none, some, if◌then◌else◌, arith,
}
use seer.Common.Int.{ℤ, pos, negsuc, ◌-ℤ◌, ◌+ℤ◌, ltb_ℤ, ◌≤ℤ◌}

-- The button's rectangle.
pub record Rect : Type 0 where
  pub left : ℤ
  pub bottom : ℤ
  pub width : ℕ

pub record Coords : Type 0 where
  pub top : ℤ
  pub left : ℤ
  pub width : ℕ

-- `menuWidth || rect.width`
abbrev pub final_width : Option ℕ → ℕ → ℕ
final_width none w = w
final_width (some m) w = if m == 0 then w else m

abbrev pub padding : ℕ
padding = 12

-- Pushed left if it goes over the right edge, and then not beyond the left one.
abbrev pub from_right : ℤ → (width inner : ℕ) → ℤ
from_right left width inner =
    if ltb_ℤ (pos inner -ℤ pos padding) (left +ℤ pos width)
    then pos inner -ℤ pos width -ℤ pos padding
    else left

abbrev pub from_left : ℤ → ℤ
from_left left = if ltb_ℤ left (pos padding) then pos padding else left

unfoldable pub left_pos : ℤ → (width inner : ℕ) → ℤ
left_pos left width inner = from_left (from_right left width inner)

-- A press of the button closes an open menu; else it opens it, if the button is there.
pub record MenuState : Type 0 where
  pub is_shown : Bool
  pub coords : Coords

abbrev pub open_at : Option Rect → Option ℕ → ℕ → MenuState → MenuState
open_at none menu_width inner s = s
open_at (some rect) menu_width inner s =
    let width = final_width menu_width rect.width in
    record {
      is_shown = true;
      coords = record {
        top = rect.bottom +ℤ pos 8;
        left = left_pos rect.left width inner;
        width = width;
      };
    }

unfoldable pub toggle_menu : Option Rect → Option ℕ → ℕ → MenuState → MenuState
toggle_menu rect menu_width inner s =
    if s.is_shown then record s { is_shown = false } else open_at rect menu_width inner s

-- The place of a menu of the width in a window: within the padding on the left; where the window has room for it, also
-- on the right; and where the button is with both paddings kept, at the button.
pub record IsOnScreen (button : ℤ) (width inner : ℕ) (left : ℤ) : Type 0 where
  pub left_ge : pos 12 ≤ℤ left
  pub right_le : width + 24 ≤ inner → left +ℤ pos width +ℤ pos 12 ≤ℤ pos inner
  pub kept : pos 12 ≤ℤ button → button +ℤ pos width +ℤ pos 12 ≤ℤ pos inner → left ≡ button

left_pos-IsOnScreen :
    (button : ℤ) (width inner : ℕ) → IsOnScreen button width inner (left_pos button width inner)
unfolding left_pos ◌-ℤ◌ ◌+ℤ◌
left_pos-IsOnScreen (pos b) width inner = record {
  left_ge = ground arith;
  right_le = λ room. ground arith;
  kept = λ l r. ground arith;
}
left_pos-IsOnScreen (negsuc b) width inner = record {
  left_ge = ground arith;
  right_le = λ room. ground arith;
  kept = λ l r. absurd (omega arith);
}

-- A press of the button of a closed menu opens it: below the button, as wide as asked for or as the button, within the
-- padding on the left and, where the window has room for it, on the right, and at the button if it fits there.
pub toggle_menu-IsOnScreen :
    (rect : Rect) (menu_width : Option ℕ) (inner : ℕ) (s : MenuState)
    → s.is_shown ≡ false
    → let s' = toggle_menu (some rect) menu_width inner s in
      (s'.is_shown ≡ true)
      × (s'.coords.width ≡ final_width menu_width rect.width)
      × (s'.coords.top ≡ rect.bottom +ℤ pos 8)
      × IsOnScreen rect.left s'.coords.width inner s'.coords.left
unfolding toggle_menu
toggle_menu-IsOnScreen rect menu_width inner s e =
    rw e (refl, refl, refl, left_pos-IsOnScreen rect.left (final_width menu_width rect.width) inner)
