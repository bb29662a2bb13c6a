-- ===== src/Common/Bools.antt =====
-- What Boolean tests that hold or fail say of their parts.
use mathlib.Core.Path.{◌≡◌, refl, ap}
use mathlib.Core.Bool.{Bool, true, false, not, ◌&&◌, ◌||◌}

pub and-left : (a b : Bool) → (a && b) ≡ true → a ≡ true
and-left true b e = refl
and-left false b e = cc

pub and-right : (a b : Bool) → (a && b) ≡ true → b ≡ true
and-right true b e = e
and-right false b e = cc

pub or-left : (a b : Bool) → (a || b) ≡ false → a ≡ false
or-left true b e = cc
or-left false b e = refl

pub not-true : (a : Bool) → not a ≡ true → a ≡ false
not-true true e = cc
not-true false e = refl

pub not_swap : (a : Bool) {b : Bool} → not a ≡ b → a ≡ not b
not_swap true e = ap not e
not_swap false e = ap not e

pub absurd_of_true {ℓ} : {A : Type ℓ} → true ≡ false → A
absurd_of_true e = cc

pub or-right : (a b : Bool) → (a || b) ≡ false → b ≡ false
or-right true b e = cc
or-right false b e = e

pub not-false : (a : Bool) → not a ≡ false → a ≡ true
not-false true e = refl
not-false false e = cc
