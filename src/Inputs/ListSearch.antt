-- ===== src/Inputs/ListSearch.antt =====
-- frontend/seer/src/ui/markets/home/Header.tsx: the search field above a list of markets, which writes the parameter q
-- of the address. `useDebounceCallback` is a third-party library's: the last call waits until `fires`.
use seer.Common.{
  ◌≡◌, ◌⊎◌, refl, sym, ap, ◌∙◌, inl, inr, true, false, Option, none, some, List, [], ◌∷◌, leb,
  length, if◌then◌else◌, Bool-cases,
}
use mathlib.Core.Option.{some-injective}
use seer.PriceInput.{Text}

-- `q` is that of the address, empty if it has none: setting an empty one deletes it.
pub record ListSearch : Type 0 where
  pub input_value : Text
  pub q : Text
  pub waiting : Option Text

abbrev pub initial_list_search : Text → ListSearch
initial_list_search q = record { input_value = q; q = q; waiting = none }

pub data ListSearchEvent : Type 0 where
  changes : Text → ListSearchEvent
  fires clears : ListSearchEvent

-- A text of less than three code units deletes the parameter, and leaves a call of the debounced function waiting.
abbrev pub change_list_search : Text → ListSearch → ListSearch
change_list_search v s =
    if leb 3 (length v)
    then record s { input_value = v; waiting = some v }
    else record s { input_value = v; q = [] }

abbrev pub debounced_params : Option Text → ListSearch → ListSearch
debounced_params none s = s
debounced_params (some v) s = record s { q = v; waiting = none }

abbrev pub clear_list_search : ListSearch → ListSearch
clear_list_search s = record s { input_value = []; q = [] }

unfoldable pub list_search_step : ListSearchEvent → ListSearch → ListSearch
list_search_step (changes v) s = change_list_search v s
list_search_step fires s = debounced_params s.waiting s
list_search_step clears s = clear_list_search s

abbrev pub list_search_run : List ListSearchEvent → ListSearch → ListSearch
list_search_run [] s = s
list_search_run (e ∷ es) s = list_search_run es (list_search_step e s)

-- Missing, or of the three code units at least that the search of markets asks for.
abbrev pub IsSearchable : Text → Type 0
IsSearchable q = (q ≡ []) ⊎ (leb 3 (length q) ≡ true)

pub record Follows (s : ListSearch) : Type 0 where
  pub q : IsSearchable s.q
  pub waiting : (v : Text) → s.waiting ≡ some v → leb 3 (length v) ≡ true
  pub in_sync :
      (leb 3 (length s.input_value) ≡ false)
      ⊎ (s.waiting ≡ some s.input_value)
      ⊎ ((s.waiting ≡ none) × (s.q ≡ s.input_value))

step-Follows : (e : ListSearchEvent) (s : ListSearch) → Follows s → Follows (list_search_step e s)
unfolding list_search_step
step-Follows clears s h = record { q = inl refl; waiting = h.waiting; in_sync = inl refl }
step-Follows (changes v) s h = elim (Bool-cases (leb 3 (length v))) [
  | inl long ↦ rw long (record {
    q = h.q;
    waiting = λ w e. ap (λ t. leb 3 (length t)) (sym (some-injective _ _ e)) ∙ long;
    in_sync = inr (inl refl);
  })
  | inr short ↦ rw short (record { q = inl refl; waiting = h.waiting; in_sync = inl short })
]
step-Follows fires s h = fired s.waiting refl
  where
    fired : (w : Option Text) → s.waiting ≡ w → Follows (debounced_params w s)
    fired none e = h
    fired (some v) e = record {
      q = inr (h.waiting v e);
      waiting = λ w e'. cc;
      in_sync = elim h.in_sync [
        | inl short ↦ inl short
        | inr (inl same) ↦ inr (inr (refl, some-injective _ _ (sym e ∙ same)))
        | inr (inr (nothing, _)) ↦ cc
      ];
    }

-- From an address with a searchable text or none, the field only writes such a text, and a text of three code units
-- or more in the field is that of the address or waits for the debounced call.
pub list_search_run-Follows :
    (es : List ListSearchEvent) (q : Text)
    → IsSearchable q
    → Follows (list_search_run es (initial_list_search q))
list_search_run-Follows es q h =
    after es (initial_list_search q)
      (record { q = h; waiting = λ v e. cc; in_sync = inr (inr (refl, refl)) })
  where
    after :
        (es : List ListSearchEvent) (s : ListSearch) → Follows s → Follows (list_search_run es s)
    after [] s h = h
    after (e ∷ es) s h = after es (list_search_step e s) (step-Follows e s h)

-- A text that is deleted before the debounced call runs is searched all the same.
deleted_text :
    (v : Text)
    → leb 3 (length v) ≡ true
    → (list_search_run (changes v ∷ changes [] ∷ fires ∷ []) (initial_list_search [])).q ≡ v
unfolding list_search_step
deleted_text v long = rw long refl
