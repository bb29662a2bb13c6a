-- ===== src/Inputs/Blank.antt =====
-- `String.prototype.trim`: what is left is empty exactly if nothing but white space was there.
use seer.Common.{ℕ, ◌≡◌, ◌↔◌, refl, true, [], ◌∷◌, All, Bool-cases, inl, inr}
use seer.PriceInput.{Text}
use seer.Inputs.{is_blank, trim_units_start, trim_units_last, trim_units_end, trim_units}

abbrev pub IsBlank : Text → Type 0
IsBlank s = All (λ c. is_blank c ≡ true) s

blank-trim_units_start : (s : Text) → IsBlank s → trim_units_start s ≡ []
unfolding trim_units_start
blank-trim_units_start [] h = refl
blank-trim_units_start (c ∷ s) (b, h) = rw b (blank-trim_units_start s h)

trim_units_start-IsBlank : (s : Text) → trim_units_start s ≡ [] → IsBlank s
unfolding trim_units_start
trim_units_start-IsBlank [] e = tt
trim_units_start-IsBlank (c ∷ s) e = elim (Bool-cases (is_blank c)) [
  | inl b ↦ let e' = (rw (b) at e) in (b, trim_units_start-IsBlank s e')
  | inr b ↦ let e' = (rw (b) at e) in cc
]

blank-trim_units_end : (s : Text) → IsBlank s → trim_units_end s ≡ []
unfolding trim_units_end
blank-trim_units_end [] h = refl
blank-trim_units_end (c ∷ s) (b, h) = rw (blank-trim_units_end s h, b) refl

trim_units_last-IsBlank :
    (c : ℕ) (t : Text) → IsBlank (trim_units_last c t) → (is_blank c ≡ true) × IsBlank t
trim_units_last-IsBlank c [] h = elim (Bool-cases (is_blank c)) [
  | inl b ↦ (b, tt)
  | inr b ↦ let h' = (rw (b) at h) in (h'.0, tt)
]
trim_units_last-IsBlank c (d ∷ t) (b, h) = (b, h)

trim_units_end-IsBlank : (s : Text) → IsBlank (trim_units_end s) → IsBlank s
unfolding trim_units_end
trim_units_end-IsBlank [] h = tt
trim_units_end-IsBlank (c ∷ s) h =
    let (b, t) = trim_units_last-IsBlank c (trim_units_end s) h in (b, trim_units_end-IsBlank s t)

-- Nothing is left of a text exactly if it is blank.
pub trim_units-eq-nil_iff : (s : Text) → (trim_units s ≡ []) ↔ IsBlank s
unfolding trim_units_start
trim_units-eq-nil_iff s = (
  (λ e. trim_units_end-IsBlank s (trim_units_start-IsBlank (trim_units_end s) e)),
  λ h. rw (blank-trim_units_end s h) refl,
)
