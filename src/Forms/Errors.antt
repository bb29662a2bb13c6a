-- ===== src/Forms/Errors.antt =====
-- frontend/seer/src/ui/auth and ui/profile: which error each field of a form shows.
use seer.Common.{
  String, ◌≡◌, refl, ap, ◌∙◌, Option, none, some, List, [], ◌∷◌, if◌then◌else◌, str_eq, lookup,
  insert, lookup-insert, Bool-cases, inl, inr,
}
use seer.Api.{FieldError, ApiError}
use seer.Forms.{is_field, set_field_errors, set_root_error, field_errors, show_errors}

-- The message of the last error of a field, or what was shown before.
abbrev pub last_message : String → List FieldError → Option String → Option String
last_message field [] before = before
last_message field (e ∷ es) before =
    last_message field es (if str_eq e.field field then some e.message else before)

-- The message of the whole form.
abbrev pub root_message : Option String → Option String → Option String
root_message none before = before
root_message (some message) before = if str_eq message "" then before else some message

-- The errors that are for fields of the form.
abbrev pub for_form : List String → List FieldError → List FieldError
for_form shape [] = []
for_form shape (e ∷ es) =
    let rest = for_form shape es in if is_field shape e.field then e ∷ rest else rest

lookup-set_field_errors :
    (shape : List String) (es : List FieldError) (shown : List (String × String)) (j : String)
    → lookup j (set_field_errors shape es shown)
      ≡ last_message j (for_form shape es) (lookup j shown)
unfolding set_field_errors
lookup-set_field_errors shape [] shown j = refl
lookup-set_field_errors shape (e ∷ es) shown j = elim (Bool-cases (is_field shape e.field)) [
  | inl field ↦ rw (field) (
      lookup-set_field_errors shape es (insert e.field e.message shown) j
      ∙ ap (last_message j (for_form shape es)) (lookup-insert e.field j e.message shown))
  | inr other ↦ rw (other) (lookup-set_field_errors shape es shown j)
]

lookup-set_root_error :
    (message : Option String) (shown : List (String × String)) (j : String)
    → lookup j (set_root_error message shown)
      ≡ (if str_eq "root" j then root_message message (lookup j shown) else lookup j shown)
lookup-set_root_error none shown j = elim (Bool-cases (str_eq "root" j)) [
  | inl root ↦ rw (root) refl
  | inr other ↦ rw (other) refl
]
lookup-set_root_error (some message) shown j = elim (Bool-cases (str_eq message "")) [
  | inl empty ↦ elim (Bool-cases (str_eq "root" j)) [
    | inl root ↦ rw (root, empty) refl
    | inr other ↦ rw (other, empty) refl
  ]
  | inr full ↦ rw (full) (lookup-insert "root" j message shown)
]

-- After a refusal each name shows the message of the last error of that name, if it is one of the form's, and
-- otherwise what it showed; the whole form shows the message of the refusal, if that is not empty.
pub lookup-show_errors :
    (shape : List String) (error : ApiError) (shown : List (String × String)) (j : String)
    → let of_field = last_message j (for_form shape (field_errors error.errors)) (lookup j shown) in
      lookup j (show_errors shape error shown)
      ≡ (if str_eq "root" j then root_message error.message of_field else of_field)
unfolding show_errors
lookup-show_errors shape error shown j =
    lookup-set_root_error error.message (set_field_errors shape (field_errors error.errors) shown) j
    ∙ ap (λ shows. if str_eq "root" j then root_message error.message shows else shows)
        (lookup-set_field_errors shape (field_errors error.errors) shown j)
