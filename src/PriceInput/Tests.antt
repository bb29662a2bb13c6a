-- ===== src/PriceInput/Tests.antt =====
-- Runs of PriceInput.tsx, and its theorems at concrete texts.
use seer.Common.{◌≡◌, refl, some, [], ◌∷◌, arith}
use seer.PriceInput.{Text, sanitize_for_editing, on_change, commit_round}
use seer.PriceInput.Rounding.{IsNearest}
use seer.PriceInput.Field.{IsEditable}
use seer.PriceInput.Amount.{
  sanitize_for_editing-IsEditable, on_change-IsNearest, shown_int, shown_frac,
}

-- "$09,996x"
abbrev typed : Text
typed = b'$' ∷ b'0' ∷ b'9' ∷ b',' ∷ b'9' ∷ b'9' ∷ b'6' ∷ b'x' ∷ []

-- "09.996" is handed on as "10.00".
typed_run : (on_change 2 typed).1 ≡ some (b'1' ∷ b'0' ∷ b'.' ∷ b'0' ∷ b'0' ∷ [])
unfolding on_change seer.PriceInput.add_carry
typed_run = refl

sanitize_example :
    IsEditable (sanitize_for_editing typed)
    × (sanitize_for_editing (sanitize_for_editing typed) ≡ sanitize_for_editing typed)
sanitize_example = sanitize_for_editing-IsEditable typed

on_change-IsNearest_example :
    let next = (on_change 2 typed).0 in
    (v : Text) × ((on_change 2 typed).1 ≡ some v) × IsNearest (shown_int next) (shown_frac next) 2 v
unfolding on_change
on_change-IsNearest_example = on_change-IsNearest 2 typed (omega arith) (λ e. cc)
