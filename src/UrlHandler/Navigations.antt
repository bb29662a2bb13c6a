-- ===== src/UrlHandler/Navigations.antt =====
-- frontend/seer/src/app/URLHandler.tsx with lib/hooks/useUpdateSearchParams.ts: how many navigations an address leads to, and
-- what they take out of it.
use seer.Common.{
  ℕ, suc, ◌+◌, String, ◌≡◌, refl, ap, ◌∙◌, Bool, true, false, Option, none, some, List, [], ◌∷◌,
  ◌++◌, if◌then◌else◌, str_eq, lookup, Bool-cases, inl, inr, arith,
}
use seer.SearchParams.{missing, update_params}
use seer.SearchParams.Updates.{lookup-update_params}
use seer.UrlHandler.{
  Act, toasts, opens_profile_completion, sets_params, opens_user, filled, is_name, open_user,
  show_modal, navigations,
}

-- Taking a name out.
pub lookup-removed :
    (k j : String) (params : List (String × String))
    → lookup j (update_params ((k, missing) ∷ []) params)
      ≡ (if str_eq k j then none else lookup j params)
lookup-removed k j params = lookup-update_params ((k, missing) ∷ []) params j

-- Whether the modal for the completion of a profile is asked for.
abbrev pub completes : List (String × String) → Bool
completes params = is_name "profile_completion" (lookup "show" params)

abbrev pub error_of : List (String × String) → Option String
error_of params = filled (lookup "error" params)

-- The most navigations that an address leads to: four with an error and the completion of a profile, one with either.
abbrev pub most_of : Option String → Bool → ℕ
most_of none false = 0
most_of none true = 1
most_of (some error) false = 1
most_of (some error) true = 4

abbrev pub most_navigations : List (String × String) → ℕ
most_navigations params = most_of (error_of params) (completes params)

abbrev pub removed : String → List (String × String) → List (String × String)
removed k params = update_params ((k, missing) ∷ []) params

pub most-removed_error :
    (q : List (String × String)) → most_navigations (removed "error" q) ≡ most_of none (completes q)
most-removed_error q =
    ap (λ o. most_of (filled o) (completes (removed "error" q))) (lookup-removed "error" "error" q)
    ∙ ap (λ o. most_of none (is_name "profile_completion" o)) (lookup-removed "error" "show" q)

pub most-removed_show :
    (q : List (String × String)) → most_navigations (removed "show" q) ≡ most_of (error_of q) false
most-removed_show q =
    ap (λ o. most_of (error_of (removed "show" q)) (is_name "profile_completion" o))
      (lookup-removed "show" "show" q)
    ∙ ap (λ o. most_of (filled o) false) (lookup-removed "show" "error" q)

pub navigations-append : (a b : List Act) → navigations (a ++ b) ≡ navigations a ++ navigations b
navigations-append [] b = refl
navigations-append (sets_params u ∷ a) b = ap (λ l. u ∷ l) (navigations-append a b)
navigations-append (toasts m ∷ a) b = navigations-append a b
navigations-append (opens_user u ∷ a) b = navigations-append a b
navigations-append (opens_profile_completion ∷ a) b = navigations-append a b

navigations-open_user : (u : Option String) → navigations (open_user u) ≡ []
navigations-open_user none = refl
navigations-open_user (some u) = refl

-- The modal navigates only for the completion of a profile, and then takes the name `show` out.
pub navigations-show_modal :
    (show username : Option String)
    → navigations (show_modal show username)
      ≡ (if is_name "profile_completion" show then (("show", missing) ∷ []) ∷ [] else [])
navigations-show_modal show username = elim (Bool-cases (is_name "profile_completion" show)) [
  | inl completion ↦ simp completion
  | inr no_completion ↦ elim (Bool-cases (is_name "user" show)) [
    | inl user ↦ simp (no_completion, user, navigations-open_user (filled username))
    | inr other ↦ simp (no_completion, other)
  ]
]

-- Each waiting address counts for itself and for its navigations.
unfoldable pub load : List (List (String × String)) → ℕ
load [] = 0
load (q ∷ later) = suc (most_navigations q + load later)

pub load-append : (a b : List (List (String × String))) → load (a ++ b) ≡ load a + load b
unfolding load
load-append [] b = omega arith
load-append (q ∷ a) b = omega (arith, load-append a b)
