-- ===== src/SearchParams/Tests.antt =====
-- frontend/seer/src/lib/hooks/useUpdateSearchParams.ts at concrete parameters.
use seer.Common.{delete, String, ◌≡◌, refl, none, some, List, [], ◌∷◌}
use seer.SearchParams.{UpdateValue, missing, text, update_params, set_param, set_params}

abbrev updates : List (String × UpdateValue)
updates = ("sort", text "volume") ∷ ("query", text "") ∷ ("status", missing) ∷ []

abbrev current : List (String × String)
current = ("query", "cup") ∷ ("sort", "newest") ∷ []

-- The empty and the missing value take their parameters away.
updated : update_params updates current ≡ ("sort", "volume") ∷ []
unfolding update_params set_param delete
updated = refl

-- With no parameter left, a new pathname is ignored.
new_pathname_ignored :
    (set_params
      (λ ps. "")
      "/search"
      []
      []
      (record {
        replace = none;
        scroll = none;
        new_pathname = some "/market";
        overwrite_current = none;
      })).href
    ≡ "/search"
unfolding set_params update_params
new_pathname_ignored = refl
