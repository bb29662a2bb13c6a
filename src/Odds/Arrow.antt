-- ===== src/Odds/Arrow.antt =====
-- frontend/seer/src/ui/odds/ArrowOdds.tsx: the arrow beside odds whose probability has changed. `compared_to` is
-- decimal.js's comparison, which is negative, 0 or positive.
use seer.Common.{◌≡◌, refl, ◌∙◌, Option, none, some, List, [], ◌∷◌, if◌then◌else◌}
use seer.Common.Int.{ℤ, pos, ltb_ℤ}

pub data Direction : Type 0 where
  up down : Direction

pub record Arrow (D : Type 0) : Type 0 where
  pub prev_prob : D
  pub direction : Option Direction

-- Lower probabilities are higher odds.
abbrev pub direction_of : ℤ → Option Direction
direction_of cmp =
    if ltb_ℤ cmp (pos 0) then some up else if ltb_ℤ (pos 0) cmp then some down else none

abbrev pub or_kept : Option Direction → Option Direction → Option Direction
or_kept none kept = kept
or_kept (some d) kept = some d

module _ {D : Type 0} where
  -- The animation has ended.
  pub on_complete : Arrow D → Arrow D
  on_complete a = record a { direction = none }

module _ {D : Type 0} (compared_to : D → D → ℤ) where
  -- The effect, on a new probability.
  unfoldable pub on_prob : D → Arrow D → Arrow D
  on_prob prob a = record {
    prev_prob = prob;
    direction = or_kept (direction_of (compared_to prob a.prev_prob)) a.direction;
  }

  abbrev pub arrow_run : List D → Arrow D → Arrow D
  arrow_run [] a = a
  arrow_run (p ∷ ps) a = arrow_run ps (on_prob p a)

  -- The direction of the last change among probabilities that follow `before`.
  abbrev pub last_change : D → List D → Option Direction
  last_change before [] = none
  last_change before (p ∷ ps) = or_kept (last_change p ps) (direction_of (compared_to p before))

  or_kept_assoc : (a b c : Option Direction) → or_kept a (or_kept b c) ≡ or_kept (or_kept a b) c
  or_kept_assoc none b c = refl
  or_kept_assoc (some d) b c = refl

  -- After any probabilities the arrow is that of the last change, whichever probabilities were the same as before; it is
  -- what it was if there was no change.
  pub arrow_run-direction :
      (ps : List D) (a : Arrow D)
      → (arrow_run ps a).direction ≡ or_kept (last_change a.prev_prob ps) a.direction
  unfolding on_prob
  arrow_run-direction [] a = refl
  arrow_run-direction (p ∷ ps) a =
      arrow_run-direction ps (on_prob p a)
      ∙ or_kept_assoc (last_change p ps) (direction_of (compared_to p a.prev_prob)) a.direction
