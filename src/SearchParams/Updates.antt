-- ===== src/SearchParams/Updates.antt =====
-- frontend/seer/src/lib/hooks/useUpdateSearchParams.ts: which parameters there are after the updates.
use seer.Common.{
  String, ◌≡◌, refl, Option, none, some, List, [], ◌∷◌, if◌then◌else◌, str_eq, lookup,
  lookup-delete, arith, eq_iff, Bool-cases, inl, inr, ◌∙◌, ap,
}
use seer.SearchParams.{UpdateValue, missing, text, set_param, update_param, update_params}

lookup-set_param :
    (k v j : String) (ps : List (String × String))
    → lookup j (set_param k v ps) ≡ (if str_eq k j then some v else lookup j ps)
unfolding set_param lookup
lookup-set_param k v j [] = refl
lookup-set_param k v j (p ∷ ps) =
    ground (
      arith,
      eq_iff k j,
      eq_iff p.0 k,
      eq_iff p.0 j,
      lookup-set_param k v j ps,
      lookup-delete k j ps,
    )

-- What a name stands for after one update, and after all in their order.
abbrev pub value_of : UpdateValue → Option String
value_of missing = none
value_of (text v) = if str_eq v "" then none else some v

abbrev pub final : String → List (String × UpdateValue) → Option String → Option String
final j [] before = before
final j ((k, v) ∷ updates) before = final j updates (if str_eq k j then value_of v else before)

lookup-update_param :
    (k : String) (v : UpdateValue) (j : String) (ps : List (String × String))
    → lookup j (update_param k v ps) ≡ (if str_eq k j then value_of v else lookup j ps)
lookup-update_param k missing j ps = lookup-delete k j ps
lookup-update_param k (text v) j ps = elim (Bool-cases (str_eq v "")) [
  | inl e ↦ rw e (lookup-delete k j ps)
  | inr e ↦ rw e (lookup-set_param k v j ps)
]

-- After the updates a name has the value of its last update, and none if that is missing or empty; a name
-- without an update has the value of before.
pub lookup-update_params :
    (updates : List (String × UpdateValue)) (params : List (String × String)) (j : String)
    → lookup j (update_params updates params) ≡ final j updates (lookup j params)
unfolding update_params
lookup-update_params [] params j = refl
lookup-update_params ((k, v) ∷ updates) params j =
    lookup-update_params updates (update_param k v params) j
    ∙ ap (final j updates) (lookup-update_param k v j params)
