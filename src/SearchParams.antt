-- ===== src/SearchParams.antt =====
-- frontend/seer/src/lib/hooks/useUpdateSearchParams.ts: the navigation to other search parameters. A
-- URLSearchParams is the list of its pairs; its text is a parameter, and the router's call is the result.
pub mod Updates
mod Tests
use Prim.Native.String.{◌++◌}
use seer.Common.{
  String, Bool, true, false, Option, none, some, List, [], ◌∷◌, if◌then◌else◌, str_eq, delete,
}

-- `null` or `undefined`, or the text of a string, a number or a truth value.
pub data UpdateValue : Type 0 where
  missing : UpdateValue
  text : String → UpdateValue

-- `opts`; a missing property is `none`.
pub record NavigationOptions : Type 0 where
  pub replace : Option Bool
  pub scroll : Option Bool
  pub new_pathname : Option String
  pub overwrite_current : Option Bool

-- The call of `router.replace` (or of `router.push`).
pub record Navigation : Type 0 where
  pub replaces : Bool
  pub href : String
  pub scroll : Bool

abbrev pub is_set : Option Bool → Bool
is_set none = false
is_set (some b) = b

-- `URLSearchParams.set`: the first pair of the name gets the value and the others go.
unfoldable pub set_param : String → String → List (String × String) → List (String × String)
unfolding delete
set_param k v [] = (k, v) ∷ []
set_param k v (p ∷ ps) =
    let rest = set_param k v ps in if str_eq p.0 k then (k, v) ∷ delete k ps else p ∷ rest

abbrev pub update_param : String → UpdateValue → List (String × String) → List (String × String)
update_param k missing params = delete k params
update_param k (text v) params = if str_eq v "" then delete k params else set_param k v params

unfoldable pub update_params :
    List (String × UpdateValue) → List (String × String) → List (String × String)
update_params [] params = params
update_params ((k, v) ∷ updates) params = update_params updates (update_param k v params)

abbrev pub or_pathname : Option String → String → String
or_pathname none pathname = pathname
or_pathname (some p) pathname = if str_eq p "" then pathname else p

module _ (to_string : List (String × String) → String) where
  unfoldable pub set_params :
      (pathname : String)
      → (current : List (String × String)) → List (String × UpdateValue)
      → NavigationOptions
      → Navigation
  set_params pathname current updates opts =
      let params = update_params updates (if is_set opts.overwrite_current then [] else current) in
      let qs = to_string params in
      record {
        replaces = is_set opts.replace;
        href =
            if str_eq qs ""
            then pathname
            else or_pathname opts.new_pathname pathname ++ ("?" ++ qs);
        scroll = is_set opts.scroll;
      }
