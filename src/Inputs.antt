-- ===== src/Inputs.antt =====
-- frontend/seer/src/ui: what the user types into or opens: the chat's field in chat/ChatDrawer.tsx, the search field in
-- SearchBar.tsx, the search field of a list of markets in markets/home/Header.tsx, the field for a comment in
-- comments/CommentSection.tsx, and the menu of menu_small_vertical/MenuVertical.tsx. Texts are lists of UTF-16 code units.
pub mod Blank
pub mod ChatField
pub mod SearchField
pub mod ListSearch
pub mod CommentField
pub mod Menu
mod Tests
use seer.Common.{ℕ, Bool, ◌&&◌, ◌||◌, List, [], ◌∷◌, ◌==◌, leb, if◌then◌else◌}
use seer.PriceInput.{Text}

-- What `trim` takes for white space.
abbrev pub is_blank : ℕ → Bool
is_blank c =
    (leb 9 c && leb c 13)
    || (c == 32
        || (c == 160
            || (c == 5760
                || ((leb 8192 c && leb c 8202)
                    || (c == 8232
                        || (c == 8233
                            || (c == 8239 || (c == 8287 || (c == 12288 || c == 65279)))))))))

unfoldable pub trim_units_start : Text → Text
trim_units_start [] = []
trim_units_start (c ∷ s) = let rest = trim_units_start s in if is_blank c then rest else c ∷ s

abbrev pub trim_units_last : ℕ → Text → Text
trim_units_last c [] = if is_blank c then [] else c ∷ []
trim_units_last c (d ∷ s) = c ∷ d ∷ s

unfoldable pub trim_units_end : Text → Text
trim_units_end [] = []
trim_units_end (c ∷ s) = trim_units_last c (trim_units_end s)

abbrev pub trim_units : Text → Text
trim_units s = trim_units_start (trim_units_end s)
