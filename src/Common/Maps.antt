-- ===== src/Common/Maps.antt =====
-- Records and `Map`s keyed by strings, as association lists.
use Prim.Native.String.{String}
use mathlib.Core.Path.{◌≡◌, refl}
use mathlib.Core.Bool.{Bool}
use mathlib.Core.List.{List, [], ◌∷◌}
use mathlib.Core.Option.{Option, none, some}
use native.Mathlib.Omega.{arith}
use text.Mathlib.Text.{◌==◌}
use text.Mathlib.TextEquality.{eq_iff}
use package.seer.Common.Tests.{if◌then◌else◌}

abbrev pub str_eq : String → String → Bool
str_eq a b = a == b

module _ {ℓ} {V : Type ℓ} where
  unfoldable pub lookup : String → List (String × V) → Option V
  lookup key (entry ∷ others) = if str_eq entry.0 key then some entry.1 else lookup key others
  lookup key [] = none

  unfoldable pub insert : String → V → List (String × V) → List (String × V)
  insert key value (entry ∷ others) =
      let inserted = insert key value others in
      if str_eq entry.0 key then (key, value) ∷ others else entry ∷ inserted
  insert key value [] = (key, value) ∷ []

  unfoldable pub delete : String → List (String × V) → List (String × V)
  delete key (entry ∷ others) =
      let kept = delete key others in if str_eq entry.0 key then kept else entry ∷ kept
  delete key [] = []

  module _ (key other : String) where
    pub lookup-insert :
        (value : V) (entries : List (String × V))
        → lookup other (insert key value entries)
          ≡ (if str_eq key other then some value else lookup other entries)
    unfolding lookup insert
    lookup-insert value (entry ∷ others) = ground (
      arith,
      eq_iff key other,
      eq_iff entry.0 key,
      eq_iff entry.0 other,
      lookup-insert value others,
    )
    lookup-insert value [] = refl

    pub lookup-delete :
        (entries : List (String × V))
        → lookup other (delete key entries)
          ≡ (if str_eq key other then none else lookup other entries)
    unfolding lookup delete
    lookup-delete (entry ∷ others) =
        ground
          (arith, eq_iff key other, eq_iff entry.0 key, eq_iff entry.0 other, lookup-delete others)
    lookup-delete [] = ground arith
