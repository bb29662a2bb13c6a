-- ===== src/UrlHandler.antt =====
-- frontend/seer/src/app/URLHandler.tsx: what the search parameters of an address ask to be shown, and the
-- navigations that take them out of it again. The router is a third-party one: it renders the addresses that it is given in
-- their order, and may skip one that another one follows.
pub mod Navigations
pub mod Visits
pub mod Settling
mod Tests
use seer.Common.{
  ℕ, zero, suc, String, Bool, true, false, Option, none, some, List, [], ◌∷◌, ◌++◌, map,
  if◌then◌else◌, str_eq, lookup,
}
use seer.Common.Result.{Result, ok, thrown, out_of_fuel, ◌>>=◌}
use seer.SearchParams.{UpdateValue, missing, update_params}

-- A toast, a modal, or a call of `setParams`.
pub data Act : Type 0 where
  toasts opens_user : String → Act
  opens_profile_completion : Act
  sets_params : List (String × UpdateValue) → Act

-- A text that counts as true.
abbrev pub filled : Option String → Option String
filled none = none
filled (some s) = if str_eq s "" then none else some s

abbrev pub is_name : String → Option String → Bool
is_name name none = false
is_name name (some s) = str_eq s name

abbrev pub toast_decoded : Option String → Result (List Act)
toast_decoded none = thrown
toast_decoded (some message) = ok (toasts message ∷ sets_params (("error", missing) ∷ []) ∷ [])

-- `decodeURIComponent` throws on what is no encoding, which is `none`.
abbrev pub show_error : (String → Option String) → Option String → Result (List Act)
show_error decode none = ok []
show_error decode (some error) = toast_decoded (decode error)

abbrev pub open_user : Option String → List Act
open_user none = []
open_user (some username) = opens_user username ∷ []

abbrev pub show_modal : Option String → Option String → List Act
show_modal show username =
    if is_name "profile_completion" show
    then opens_profile_completion ∷ sets_params (("show", missing) ∷ []) ∷ []
    else if is_name "user" show
    then open_user (filled username)
    else []

-- The effect, which runs when the address has changed.
unfoldable pub handle : (String → Option String) → List (String × String) → Result (List Act)
handle decode params = do
  acts ← show_error decode (filled (lookup "error" params))
  ok (acts ++ show_modal (lookup "show" params) (lookup "username" params))

-- The updates of the calls of `setParams`, in their order.
abbrev pub navigations : List Act → List (List (String × UpdateValue))
navigations [] = []
navigations (sets_params updates ∷ acts) = updates ∷ navigations acts
navigations (toasts message ∷ acts) = navigations acts
navigations (opens_user username ∷ acts) = navigations acts
navigations (opens_profile_completion ∷ acts) = navigations acts

-- The addresses that the router is given: each call starts from the parameters of the rendering.
abbrev pub pushed : List (String × String) → List Act → List (List (String × String))
pushed params acts = map (λ updates. update_params updates params) (navigations acts)

-- The effect has done `acts` at an address; `later` are the addresses that wait to be rendered.
abbrev pub go_on :
    (List (String × String)
      → List (List (String × String))
      → Result (List Act × List (String × String)))
    → List (String × String)
    → List Act
    → List (List (String × String))
    → Result (List Act × List (String × String))
go_on again params acts [] = ok (acts, params)
go_on again params acts (next ∷ later) = again next later >>= λ rest. ok (acts ++ rest.0, rest.1)

-- All that the effect does until no address waits, and the parameters that are left. An address that waits is rendered,
-- and the effect runs on it, unless another one waits behind it and the router skips it, which is up to `skips`.
unfoldable pub settle_address :
    (String → Option String)
    → (ℕ → Bool)
    → ℕ
    → List (String × String)
    → List (List (String × String))
    → Result (List Act × List (String × String))
settle_address decode skips zero params later = out_of_fuel
settle_address decode skips (suc fuel) params [] = handle decode params >>= λ acts.
    go_on (settle_address decode skips fuel) params acts (pushed params acts)
settle_address decode skips (suc fuel) params (next ∷ later) =
    let skipped = settle_address decode skips fuel next later in
    let rendered = handle decode params >>= λ acts.
    go_on (settle_address decode skips fuel) params acts (next ∷ (later ++ pushed params acts)) in
    if skips fuel then skipped else rendered
