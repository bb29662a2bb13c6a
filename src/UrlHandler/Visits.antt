-- ===== src/UrlHandler/Visits.antt =====
-- frontend/seer/src/app/URLHandler.tsx with lib/hooks/useUpdateSearchParams.ts: what the effect does at
-- one address.
use seer.Common.{
  String, ◌≡◌, refl, ap, sym, ◌∙◌, Bool, true, false, Option, none, some, List, [], ◌∷◌,
  if◌then◌else◌, str_eq, lookup, Bool-cases, Option-cases, inl, inr, All, map,
}
use seer.Common.Result.{ok}
use seer.SearchParams.{UpdateValue, missing, update_params}
use seer.UrlHandler.{
  Act, toasts, sets_params, filled, is_name, show_modal, handle, navigations, pushed,
}
use seer.UrlHandler.Navigations.{
  lookup-removed, completes, error_of, most_of, most_navigations, removed, most-removed_error,
  most-removed_show, navigations-show_modal, load,
}

module _ (decode : String → Option String) where
  abbrev modal_of : List (String × String) → List Act
  modal_of params = show_modal (lookup "show" params) (lookup "username" params)

  handle-modal :
      (params : List (String × String))
      → filled (lookup "error" params) ≡ none
      → handle decode params ≡ ok (modal_of params)
  unfolding handle
  handle-modal params no_error = rw no_error refl

  handle-toast :
      (params : List (String × String)) {error message : String}
      → filled (lookup "error" params) ≡ some error
      → decode error ≡ some message
      → handle decode params
        ≡ ok (toasts message ∷ sets_params (("error", missing) ∷ []) ∷ modal_of params)
  unfolding handle
  handle-toast params an_error decoded = rw (an_error, decoded) refl

  -- The parameters ask for nothing that navigates, and are as before but for `error` and `show`.
  pub record IsClean (before params : List (String × String)) : Type 0 where
    pub error_eq : filled (lookup "error" params) ≡ none
    pub show_eq : is_name "profile_completion" (lookup "show" params) ≡ false
    pub others_eq :
        (j : String)
        → str_eq "error" j ≡ false
        → str_eq "show" j ≡ false
        → lookup j params ≡ lookup j before

  -- An address that the effect makes of `base`: its error is none or can be decoded.
  pub record IsKept (base q : List (String × String)) : Type 0 where
    pub decodes :
        (error : String)
        → error_of q ≡ some error
        → (message : String) × (decode error ≡ some message)
    pub others_eq :
        (j : String)
        → str_eq "error" j ≡ false
        → str_eq "show" j ≡ false
        → lookup j q ≡ lookup j base

  removed_error-IsKept :
      (base q : List (String × String)) → IsKept base q → IsKept base (removed "error" q)
  removed_error-IsKept base q h = record {
    decodes = λ error e. cc (sym (ap filled (lookup-removed "error" "error" q)) ∙ e);
    others_eq = λ j e s. lookup-removed "error" j q ∙ (rw e refl) ∙ h.others_eq j e s;
  }

  removed_show-IsKept :
      (base q : List (String × String)) → IsKept base q → IsKept base (removed "show" q)
  removed_show-IsKept base q h = record {
    decodes = λ error e. h.decodes error (sym (ap filled (lookup-removed "show" "error" q)) ∙ e);
    others_eq = λ j e s. lookup-removed "show" j q ∙ (rw s refl) ∙ h.others_eq j e s;
  }

  -- What the effect does at an address, as its navigations.
  pub record IsVisited (base q : List (String × String)) (acts : List Act) : Type 0 where
    pub load_eq : load (pushed q acts) ≡ most_navigations q
    pub kept : All (IsKept base) (pushed q acts)
    pub clean : pushed q acts ≡ [] → IsClean base q

  nothing-IsVisited :
      (base q : List (String × String)) (acts : List Act)
      → IsKept base q
      → error_of q ≡ none
      → completes q ≡ false
      → navigations acts ≡ []
      → IsVisited base q acts
  unfolding load
  nothing-IsVisited base q acts h e c n = record {
    load_eq = rw (n, e, c) refl;
    kept = rw n tt;
    clean = λ still. record { error_eq = e; show_eq = c; others_eq = h.others_eq };
  }

  show-IsVisited :
      (base q : List (String × String)) (acts : List Act)
      → IsKept base q
      → error_of q ≡ none
      → completes q ≡ true
      → navigations acts ≡ (("show", missing) ∷ []) ∷ []
      → IsVisited base q acts
  unfolding load
  show-IsVisited base q acts h e c n =
      let clean_after : most_navigations (removed "show" q) ≡ 0 =
        most-removed_show q ∙ ap (λ o. most_of o false) e in
      record {
        load_eq = rw (n, e, c, clean_after) refl;
        kept = rw n (removed_show-IsKept base q h, tt);
        clean = λ still. cc (ap (map (λ u. update_params u q)) (sym n) ∙ still);
      }

  error-IsVisited :
      (base q : List (String × String)) (acts : List Act) {error : String}
      → IsKept base q
      → error_of q ≡ some error
      → completes q ≡ false
      → navigations acts ≡ (("error", missing) ∷ []) ∷ []
      → IsVisited base q acts
  unfolding load
  error-IsVisited base q acts h e c n =
      let clean_after : most_navigations (removed "error" q) ≡ 0 =
        most-removed_error q ∙ ap (most_of none) c in
      record {
        load_eq = rw (n, e, c, clean_after) refl;
        kept = rw n (removed_error-IsKept base q h, tt);
        clean = λ still. cc (ap (map (λ u. update_params u q)) (sym n) ∙ still);
      }

  both-IsVisited :
      (base q : List (String × String)) (acts : List Act) {error : String}
      → IsKept base q
      → error_of q ≡ some error
      → completes q ≡ true
      → navigations acts ≡ (("error", missing) ∷ []) ∷ (("show", missing) ∷ []) ∷ []
      → IsVisited base q acts
  unfolding load
  both-IsVisited base q acts h e c n =
      let without_error : most_navigations (removed "error" q) ≡ 1 =
        most-removed_error q ∙ ap (most_of none) c in
      let without_show : most_navigations (removed "show" q) ≡ 1 =
        most-removed_show q ∙ ap (λ o. most_of o false) e in
      record {
        load_eq = rw (n, e, c, without_error, without_show) refl;
        kept = rw n (removed_error-IsKept base q h, (removed_show-IsKept base q h, tt));
        clean = λ still. cc (ap (map (λ u. update_params u q)) (sym n) ∙ still);
      }

  navigations-modal :
      (q : List (String × String)) {c : Bool}
      → completes q ≡ c
      → navigations (modal_of q) ≡ (if c then (("show", missing) ∷ []) ∷ [] else [])
  navigations-modal q e =
      navigations-show_modal (lookup "show" q) (lookup "username" q)
      ∙ ap (λ c. if c then (("show", missing) ∷ []) ∷ [] else []) e

  pub handle-IsVisited :
      (base q : List (String × String))
      → IsKept base q
      → (acts : List Act) × (handle decode q ≡ ok acts) × IsVisited base q acts
  handle-IsVisited base q h = elim (Option-cases (error_of q)) [
    | inl no_error ↦ (
      modal_of q,
      handle-modal q no_error,
      elim (Bool-cases (completes q)) [
        | inl c ↦ show-IsVisited base q (modal_of q) h no_error c (navigations-modal q c)
        | inr c ↦ nothing-IsVisited base q (modal_of q) h no_error c (navigations-modal q c)
      ],
    )
    | inr (error, an_error) ↦
        let (message, decoded) = h.decodes error an_error in
        let acts = toasts message ∷ sets_params (("error", missing) ∷ []) ∷ modal_of q in
        let then_modal =
          λ (l : List (List (String × UpdateValue))) (e : navigations (modal_of q) ≡ l).
            ap (λ l. (("error", missing) ∷ []) ∷ l) e in
        (
          acts,
          handle-toast q an_error decoded,
          elim (Bool-cases (completes q)) [
            | inl c ↦ both-IsVisited base q acts h an_error c (then_modal _ (navigations-modal q c))
            | inr c ↦
                error-IsVisited base q acts h an_error c (then_modal _ (navigations-modal q c))
          ],
        )
  ]
