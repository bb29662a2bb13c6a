-- ===== src/Forms.antt =====
-- frontend/seer/src/ui/auth and ui/profile: what a form shows when its call fails. The five forms with a schema
-- handle this alike; the errors of a form are those that its library keeps, the last one of each name.
pub mod Checks
pub mod Errors
mod Tests
use seer.Common.{
  String, Bool, true, false, ◌||◌, Option, none, some, List, [], ◌∷◌, if◌then◌else◌, str_eq, insert,
}
use seer.Api.{FieldError, ApiError}

-- The names that `in` finds in every object.
abbrev pub inherited : List String
inherited =
    "constructor" ∷ "hasOwnProperty" ∷ "isPrototypeOf" ∷ "propertyIsEnumerable" ∷ "toLocaleString"
    ∷ "toString" ∷ "valueOf" ∷ "__proto__" ∷ "__defineGetter__" ∷ "__defineSetter__"
    ∷ "__lookupGetter__" ∷ "__lookupSetter__" ∷ []

abbrev pub is_listed : String → List String → Bool
is_listed field [] = false
is_listed field (name ∷ names) = str_eq name field || is_listed field names

-- `field in Schema.shape`
abbrev pub is_field : List String → String → Bool
is_field shape field = is_listed field shape || is_listed field inherited

unfoldable pub set_field_errors :
    List String → List FieldError → List (String × String) → List (String × String)
unfolding insert
set_field_errors shape [] shown = shown
set_field_errors shape (e ∷ es) shown =
    set_field_errors shape es
      (if is_field shape e.field then insert e.field e.message shown else shown)

abbrev pub set_root_error : Option String → List (String × String) → List (String × String)
set_root_error none shown = shown
set_root_error (some message) shown =
    if str_eq message "" then shown else insert "root" message shown

abbrev pub field_errors : Option (List FieldError) → List FieldError
field_errors none = []
field_errors (some errors) = errors

unfoldable pub show_errors :
    List String → ApiError → List (String × String) → List (String × String)
show_errors shape error shown =
    set_root_error error.message (set_field_errors shape (field_errors error.errors) shown)

abbrev pub login_shape : List String
login_shape = "login" ∷ "password" ∷ []

abbrev pub register_shape : List String
register_shape = "username" ∷ "email" ∷ "password" ∷ []

abbrev pub change_password_shape : List String
change_password_shape = "currentPassword" ∷ "newPassword" ∷ "confirmNewPassword" ∷ []

abbrev pub set_password_shape : List String
set_password_shape = "password" ∷ "confirmPassword" ∷ []

abbrev pub profile_completion_shape : List String
profile_completion_shape = "username" ∷ []

unfoldable pub login_error : ApiError → List (String × String) → List (String × String)
login_error error shown = show_errors login_shape error shown

unfoldable pub register_error : ApiError → List (String × String) → List (String × String)
register_error error shown = show_errors register_shape error shown

unfoldable pub change_password_error : ApiError → List (String × String) → List (String × String)
change_password_error error shown = show_errors change_password_shape error shown

unfoldable pub set_password_error : ApiError → List (String × String) → List (String × String)
set_password_error error shown = show_errors set_password_shape error shown

unfoldable pub profile_completion_error : ApiError → List (String × String) → List (String × String)
profile_completion_error error shown = show_errors profile_completion_shape error shown
