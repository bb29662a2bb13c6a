-- ===== src/PriceInput.antt =====
-- frontend/seer/src/ui/PriceInput.tsx: the stake field. Texts are lists of UTF-16 code units.
pub mod Digits
pub mod Values
pub mod Rounding
pub mod Field
pub mod Amount
mod Tests
use seer.Common.{
  ℕ, zero, suc, ◌+◌, ◌-◌, Bool, true, false, not, ◌&&◌, ◌||◌, Option, none, some, List, [], ◌∷◌,
  ◌++◌, ltb, leb, ◌==◌, if◌then◌else◌, length, get_elem?, take, drop, replicate, all, any,
}

abbrev pub Text : Type 0
Text = List ℕ

abbrev pub is_digit : ℕ → Bool
is_digit ch = leb b'0' ch && leb ch b'9'

abbrev pub is_separator : ℕ → Bool
is_separator ch = ch == b'.' || ch == b','

-- The loop of `sanitizeForEditing`; the flag is `seenSep`.
pub sanitize_from : Bool → Text → Text
sanitize_from seen [] = []
sanitize_from seen (ch ∷ raw) =
    let same = sanitize_from seen raw in
    let after = sanitize_from true raw in
    if is_digit ch then ch ∷ same else if is_separator ch && not seen then ch ∷ after else same

pub sanitize_for_editing : Text → Text
unfolding sanitize_from
sanitize_for_editing raw = sanitize_from false raw

-- One round of the carry loop that `incIntString` and `addOne` share, at the digit c; the pair is
-- the array to the right of it and the carry. `parseInt` of what is no digit is NaN, and
-- `fromCharCode(NaN)` is the code unit 0.
pub carry_step : ℕ → Text × Bool → Text × Bool
carry_step c (cs, false) = (c ∷ cs, false)
carry_step c (cs, true) =
    let d = c - b'0' + 1 in
    if is_digit c
    then if leb 10 d then (b'0' ∷ cs, true) else ((48 + d) ∷ cs, false)
    else (0 ∷ cs, false)

-- The loop, from the last digit to the first.
pub add_carry : Text → Text × Bool
unfolding carry_step
add_carry [] = ([], true)
add_carry (c ∷ cs) = carry_step c (add_carry cs)

pub inc_int_string : Text → Text
inc_int_string [] = b'1' ∷ []
inc_int_string (c ∷ cs) = let (s, carry) = add_carry (c ∷ cs) in if carry then b'1' ∷ s else s

pub record Parts : Type 0 where
  pub int_str : Text
  pub frac_str : Text

pub add_one : Text → Text → Parts
add_one int_str frac_str =
    let (arr, carry) = add_carry frac_str in
    record { int_str = if carry then inc_int_string int_str else int_str; frac_str = arr }

-- `padEnd (dp, "0")` and `padStart (dp, "0")`
abbrev pub pad_end : Text → ℕ → Text
pad_end s dp = s ++ replicate (dp - length s) b'0'

abbrev pub pad_start : Text → ℕ → Text
pad_start s dp = replicate (dp - length s) b'0' ++ s

pub to_fixed_dp : Text → Text → ℕ → Text
to_fixed_dp int_part frac_part dp = int_part ++ b'.' ∷ take dp (pad_end frac_part dp)

-- `split (".")`: what stands before the first dot, and between it and the next one.
pub before_dot : Text → Text
before_dot [] = []
before_dot (c ∷ s) = if c == b'.' then [] else c ∷ before_dot s

pub after_dot : Text → Text
unfolding before_dot
after_dot [] = []
after_dot (c ∷ s) = if c == b'.' then before_dot s else after_dot s

-- `parts[0] || "0"`
abbrev pub or_zero : Text → Text
or_zero [] = b'0' ∷ []
or_zero (c ∷ s) = c ∷ s

abbrev pub is_nonzero_digit : ℕ → Bool
is_nonzero_digit ch = leb b'1' ch && leb ch b'9'

-- `rest[0] === "5" && /^[0]*$/.test(rest.slice(1))`
pub is_tie : Text → Bool
is_tie [] = false
is_tie (r ∷ rest) = r == b'5' && all (λ c. c == b'0') rest

-- `rest[0] > "5" || (rest[0] === "5" && /[1-9]/.test(rest.slice(1)))`
pub should_up : Text → Bool
should_up [] = false
should_up (r ∷ rest) = ltb b'5' r || (r == b'5' && any is_nonzero_digit rest)

-- The part of `roundHalfDownStr` below the split.
pub round_parts : Text → Text → ℕ → Text
unfolding add_one inc_int_string to_fixed_dp is_tie should_up
round_parts int_part frac_part dp =
    if leb (length frac_part) dp
    then to_fixed_dp int_part frac_part dp
    else let keep = take dp frac_part in
      let rest = drop dp frac_part in
      if is_tie rest
      then to_fixed_dp int_part keep dp
      else if not (should_up rest)
      then to_fixed_dp int_part keep dp
      else let up = add_one int_part keep in
        let rounded = take dp (pad_start up.frac_str dp) in
        if ltb 0 dp then up.int_str ++ b'.' ∷ rounded else up.int_str

pub round_half_down_str : Text → ℕ → Text
unfolding round_parts before_dot after_dot
round_half_down_str [] dp = []
round_half_down_str (c ∷ s) dp = round_parts (or_zero (before_dot (c ∷ s))) (after_dot (c ∷ s)) dp

-- `replace (",", ".")`: the first comma.
pub comma_to_dot : Text → Text
comma_to_dot [] = []
comma_to_dot (c ∷ s) = if c == b',' then b'.' ∷ s else c ∷ comma_to_dot s

-- `replace (/^0+/, "")`
pub strip_zeros : Text → Text
strip_zeros [] = []
strip_zeros (c ∷ s) = if c == b'0' then strip_zeros s else c ∷ s

-- `fracPart ? `${intPart}.${fracPart}` : intPart`
abbrev pub join_dot : Text → Text → Text
join_dot int_part [] = int_part
join_dot int_part (c ∷ s) = int_part ++ b'.' ∷ c ∷ s

-- `commitRound`: the text of the field after it loses the focus.
pub commit_round : ℕ → Text → Text
unfolding round_half_down_str comma_to_dot strip_zeros before_dot after_dot
commit_round max_decimals [] = []
commit_round max_decimals (c ∷ s) =
    let normalized = comma_to_dot (c ∷ s) in
    let int_part = or_zero (strip_zeros (before_dot normalized)) in
    round_half_down_str (join_dot int_part (after_dot normalized)) max_decimals

-- What `onChange` hands to `onValueChange` for the sanitized text; `none` is `undefined`.
pub emitted : ℕ → Text → Option Text
unfolding round_half_down_str comma_to_dot
emitted max_decimals [] = none
emitted max_decimals (c ∷ s) = some (round_half_down_str (comma_to_dot (c ∷ s)) max_decimals)

-- `onChange`: the new text of the field, and the value emitted.
pub on_change : ℕ → Text → Text × Option Text
unfolding sanitize_for_editing emitted
on_change max_decimals raw =
    let next = sanitize_for_editing raw in (next, emitted max_decimals next)
