-- ===== src/Inputs/SearchField.antt =====
-- frontend/seer/src/ui/SearchBar.tsx: the search field with its debounced query, and the outcome that a result shows.
-- `useDebounceCallback` is a third-party library's: the last call waits until `fires`.
use seer.Common.{
  ℕ, ◌≡◌, ◌⊎◌, refl, sym, ◌∙◌, ◌≢◌, zero, suc, get_elem?, inl, inr, Bool, true, false, Option, none,
  some, List, [], ◌∷◌, leb, length, if◌then◌else◌, String, Bool-cases, All,
}
use mathlib.Core.List.{foldl}
use mathlib.Core.Option.{some-injective}
use seer.Common.Result.{Result, ok, thrown}
use seer.PriceInput.{Text}
use seer.Definitions.{Outcome}
use seer.SearchParams as SearchParams
use seer.SearchParams.{Navigation, set_params}

pub record SearchState : Type 0 where
  pub input_value : Text
  pub query : Text
  pub open_results : Bool
  pub waiting : Option Text

abbrev pub initial_search : SearchState
initial_search = record { input_value = []; query = []; open_results = false; waiting = none }

-- `leaves` is a press outside of the field, or Escape.
pub data SearchEvent : Type 0 where
  changes : Text → SearchEvent
  fires clears focuses leaves searches : SearchEvent

abbrev pub handle_change_input : Text → SearchState → SearchState
handle_change_input v s = record s { input_value = v; waiting = some v }

abbrev pub debounced_query : Option Text → SearchState → SearchState
debounced_query none s = s
debounced_query (some v) s = record s { query = v; waiting = none }

-- The cross empties both, and leaves a call of the debounced function waiting.
abbrev pub clear : SearchState → SearchState
clear s = record s { input_value = []; query = [] }

unfoldable pub search_step : SearchEvent → SearchState → SearchState
search_step (changes v) s = handle_change_input v s
search_step fires s = debounced_query s.waiting s
search_step clears s = clear s
search_step focuses s = record s { open_results = true }
search_step leaves s = record s { open_results = false }
search_step searches s = record s { open_results = false }

abbrev pub search_run : List SearchEvent → SearchState → SearchState
search_run [] s = s
search_run (e ∷ es) s = search_run es (search_step e s)

-- `enabled: query.length >= 3`
abbrev pub asks_server : SearchState → Bool
asks_server s = leb 3 (length s.query)

-- `handleSearch`'s navigation; `text_of` makes a string of the code units.
unfoldable pub handle_search :
    (List (String × String) → String)
    → (Text → String)
    → String
    → List (String × String)
    → SearchState
    → Navigation
handle_search to_string text_of pathname current s =
    set_params to_string pathname current (("q", SearchParams.text (text_of s.input_value)) ∷ [])
      (record {
        replace = some true;
        scroll = none;
        new_pathname = some "/search";
        overwrite_current = some true;
      })

module _ {D : Type 0} (more : D → D → Bool) where
  abbrev pub higher : Outcome D → Outcome D → Outcome D
  higher o1 o2 = if more o1.price_yes o2.price_yes then o1 else o2

  -- `reduce` without a first value throws on an empty array. `more` is `>` on Decimals, which JavaScript works out
  -- on what their `valueOf` gives, which is text.
  unfoldable pub top_outcome : List (Outcome D) → Result (Outcome D)
  top_outcome [] = thrown
  top_outcome (o ∷ os) = ok (foldl higher o os)

-- The query is what the field holds, or that is waiting, unless the field is empty.
abbrev pub InSync : SearchState → Type 0
InSync s =
    (s.input_value ≡ [])
    ⊎ (s.waiting ≡ some s.input_value)
    ⊎ ((s.waiting ≡ none) × (s.query ≡ s.input_value))

step-InSync : (e : SearchEvent) (s : SearchState) → InSync s → InSync (search_step e s)
unfolding search_step
step-InSync (changes v) s h = inr (inl refl)
step-InSync clears s h = inl refl
step-InSync focuses s h = h
step-InSync leaves s h = h
step-InSync searches s h = h
step-InSync fires s h = fired s.waiting refl h
  where
    fired : (w : Option Text) → s.waiting ≡ w → InSync s → InSync (debounced_query w s)
    fired none e h = h
    fired (some v) e (inl empty) = inl empty
    fired (some v) e (inr (inl same)) = inr (inr (refl, some-injective _ _ (sym e ∙ same)))
    fired (some v) e (inr (inr (nothing, _))) = cc

-- Whatever the user does and whenever the debounced call runs, the query is what the field holds, or that waits for
-- the call, or the field is empty.
pub search_run-InSync : (es : List SearchEvent) → InSync (search_run es initial_search)
search_run-InSync es = after es initial_search (inl refl)
  where
    after : (es : List SearchEvent) (s : SearchState) → InSync s → InSync (search_run es s)
    after [] s h = h
    after (e ∷ es) s h = after es (search_step e s) (step-InSync e s h)

-- A field that is cleared before the debounced call runs is empty, and its query is then what was typed.
cleared_query :
    (v : Text)
    → (search_run (changes v ∷ clears ∷ fires ∷ []) initial_search).input_value ≡ []
      × ((search_run (changes v ∷ clears ∷ fires ∷ []) initial_search).query ≡ v)
unfolding search_step
cleared_query v = (refl, refl)

module _ {D : Type 0} (more : D → D → Bool) where
  -- An outcome of the list, over which no outcome of it is more.
  pub record IsHighest (os : List (Outcome D)) (top : Outcome D) : Type 0 where
    pub listed : (i : ℕ) × (get_elem? os i ≡ some top)
    pub none_more : All (λ (o : Outcome D). more o.price_yes top.price_yes ≡ false) os

  module _ (asym : (a b : D) → more a b ≡ true → more b a ≡ false)
      (trans : (a b c : D) → more a b ≡ false → more b c ≡ false → more a c ≡ false) where
    not_more_self : (a : D) → more a a ≡ false
    not_more_self a = elim (Bool-cases (more a a)) [ inl e ↦ asym a a e | inr e ↦ e ]

    -- Neither of two outcomes is more than the one that is taken.
    higher_choice :
        (cur o : Outcome D)
        → (more cur.price_yes (higher more cur o).price_yes ≡ false)
          × (more o.price_yes (higher more cur o).price_yes ≡ false)
          × ((higher more cur o ≡ cur) ⊎ (higher more cur o ≡ o))
    higher_choice cur o = elim (Bool-cases (more cur.price_yes o.price_yes)) [
      | inl kept ↦ rw kept (not_more_self cur.price_yes, asym _ _ kept, inl refl)
      | inr taken ↦ rw taken (taken, not_more_self o.price_yes, inr refl)
    ]

    place :
        (cur o c : Outcome D) (os : List (Outcome D)) {top : Outcome D} (i : ℕ)
        → (c ≡ cur) ⊎ (c ≡ o)
        → get_elem? (c ∷ os) i ≡ some top
        → (j : ℕ) × (get_elem? (cur ∷ o ∷ os) j ≡ some top)
    place cur o c os zero (inl e) at' = (0, cc (e, at'))
    place cur o c os zero (inr e) at' = (1, cc (e, at'))
    place cur o c os (suc i) e at' = (suc (suc i), at')

    foldl-IsHighest :
        (os : List (Outcome D)) (cur : Outcome D)
        → IsHighest (cur ∷ os) (foldl (higher more) cur os)
    foldl-IsHighest [] cur = record {
      listed = (0, refl);
      none_more = (not_more_self cur.price_yes, tt);
    }
    foldl-IsHighest (o ∷ os) cur =
        let (below, below', taken) = higher_choice cur o in
        let h = foldl-IsHighest os (higher more cur o) in
        record {
          listed = place cur o _ os h.listed.0 taken h.listed.1;
          none_more =
              (trans _ _ _ below h.none_more.0, (trans _ _ _ below' h.none_more.0, h.none_more.1));
        }

    -- Where `more` is the test of an order, the outcome that a search result shows is one of the market's, and no
    -- other has a higher price; it is there unless the market has no outcome.
    pub top_outcome-IsHighest :
        (os : List (Outcome D))
        → os ≢ []
        → (top : Outcome D) × (top_outcome more os ≡ ok top) × IsHighest os top
    unfolding top_outcome
    top_outcome-IsHighest [] ne = absurd (ne refl)
    top_outcome-IsHighest (o ∷ os) ne = (_, refl, foldl-IsHighest os o)
