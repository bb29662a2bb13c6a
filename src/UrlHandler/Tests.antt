-- ===== src/UrlHandler/Tests.antt =====
-- frontend/seer/src/app/URLHandler.tsx at concrete addresses.
use seer.Common.{
  ℕ, ◌≤◌, Bool, true, false, length, String, ◌≡◌, refl, none, some, List, [], ◌∷◌, lookup, delete,
}
use seer.Common.Result.{ok, thrown}
use seer.SearchParams.{missing, update_params}
use seer.UrlHandler.{
  Act, toasts, opens_profile_completion, sets_params, handle, navigations, settle_address,
}
use seer.UrlHandler.Visits.{IsClean}
use seer.UrlHandler.Settling.{settle_address-IsClean}

abbrev params : List (String × String)
params = ("error", "No") ∷ ("q", "cup") ∷ ("show", "profile_completion") ∷ []

abbrev always : ℕ → Bool
always n = true

abbrev never : ℕ → Bool
never n = false

settle_address-IsClean_example :
    (acts : List Act) × (final : List (String × String)) × (settle_address some never 6 params []
      ≡ ok (acts, final))
    × IsClean some params final
    × (length (navigations acts) ≤ 4)
unfolding lookup
settle_address-IsClean_example = settle_address-IsClean some never params (λ error e. (error, refl))

-- The error is shown a second time, since the navigation for `show` starts from the same parameters.
error_shown_twice :
    settle_address some always 6 params []
    ≡ ok (
      toasts "No"
          ∷ sets_params (("error", missing) ∷ [])
          ∷ opens_profile_completion
          ∷ sets_params (("show", missing) ∷ [])
          ∷ toasts "No"
          ∷ sets_params (("error", missing) ∷ [])
          ∷ [],
      ("q", "cup") ∷ [],
    )
unfolding settle_address handle lookup update_params delete
error_shown_twice = refl

-- If all addresses are rendered, the modal is opened a second time too.
all_rendered :
    settle_address some never 6 params []
    ≡ ok (
      toasts "No"
          ∷ sets_params (("error", missing) ∷ [])
          ∷ opens_profile_completion
          ∷ sets_params (("show", missing) ∷ [])
          ∷ opens_profile_completion
          ∷ sets_params (("show", missing) ∷ [])
          ∷ toasts "No"
          ∷ sets_params (("error", missing) ∷ [])
          ∷ [],
      ("q", "cup") ∷ [],
    )
unfolding settle_address handle lookup update_params delete
all_rendered = refl

-- A text that is no encoding, such as "100%", makes the effect throw.
undecodable_throws : handle (λ s. none) params ≡ thrown
unfolding handle lookup
undecodable_throws = refl
