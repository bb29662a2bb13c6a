-- ===== src/Inputs/CommentField.antt =====
-- frontend/seer/src/ui/comments/CommentSection.tsx and lib/queries/usePostComment.tsx: the field for a comment on a
-- market.
use seer.Common.{
  ◌≡◌, ◌≤◌, refl, Bool, true, false, not, ◌&&◌, Option, none, some, List, [], ◌∷◌, leb, length,
  if◌then◌else◌, String, Bool-cases, inl, inr, and-left, and-right, leb→le, not-true,
}
use seer.PriceInput.{Text}

pub record CommentState : Type 0 where
  pub input_value : Text
  pub is_pending : Bool

abbrev pub initial_comment : CommentState
initial_comment = record { input_value = []; is_pending = false }

pub data CommentEvent : Type 0 where
  types : Text → CommentEvent
  presses : CommentEvent
  is_answered : Bool → CommentEvent

-- What is sent and what comes back: `succeeds` makes the market's comments stale, `fails` shows a toast.
pub data CommentAct : Type 0 where
  posts : String → Text → CommentAct
  succeeds fails : CommentAct

-- `disabled={!inputValid || isPending}`
abbrev pub can_post : CommentState → Bool
can_post s = leb 3 (length s.input_value) && not s.is_pending

abbrev pub answered : Bool → CommentState → Option CommentAct × CommentState
answered true s = (some succeeds, record { input_value = []; is_pending = false })
answered false s = (some fails, record s { is_pending = false })

unfoldable pub comment_step :
    String → CommentEvent → CommentState → Option CommentAct × CommentState
comment_step market_id (types v) s = (none, record s { input_value = v })
comment_step market_id presses s =
    if can_post s
    then (some (posts market_id s.input_value), record s { is_pending = true })
    else (none, s)
comment_step market_id (is_answered ok) s = if s.is_pending then answered ok s else (none, s)

abbrev pub with_act : Option CommentAct → List CommentAct → List CommentAct
with_act none acts = acts
with_act (some a) acts = a ∷ acts

abbrev pub comment_run : String → List CommentEvent → CommentState → List CommentAct
comment_run market_id [] s = []
comment_run market_id (e ∷ es) s =
    let next = comment_step market_id e s in
    let rest = comment_run market_id es next.1 in with_act next.0 rest

-- Comments on the market of three code units or more, each answered before the next; the flag is that one waits.
abbrev pub TakesTurns : String → Bool → List CommentAct → Type 0
TakesTurns market_id waits [] = Unit
TakesTurns market_id waits (posts id v ∷ acts) =
    (waits ≡ false) × (id ≡ market_id) × (3 ≤ length v) × TakesTurns market_id true acts
TakesTurns market_id waits (succeeds ∷ acts) = (waits ≡ true) × TakesTurns market_id false acts
TakesTurns market_id waits (fails ∷ acts) = (waits ≡ true) × TakesTurns market_id false acts

-- Whatever the user types and presses and however the posts are answered, the comments that are posted are on the market
-- and at least three code units long, and none is posted before the one before it is answered.
pub comment_run-TakesTurns :
    (market_id : String) (es : List CommentEvent) (s : CommentState)
    → TakesTurns market_id s.is_pending (comment_run market_id es s)
unfolding comment_step
comment_run-TakesTurns market_id [] s = tt
comment_run-TakesTurns market_id (types v ∷ es) s =
    comment_run-TakesTurns market_id es (record s { input_value = v })
comment_run-TakesTurns market_id (presses ∷ es) s = elim (Bool-cases (can_post s)) [
  | inl free ↦ rw free (
    not-true _ (and-right _ _ free),
    refl,
    leb→le _ _ (and-left _ _ free),
    comment_run-TakesTurns market_id es (record s { is_pending = true }),
  )
  | inr blocked ↦ rw blocked (comment_run-TakesTurns market_id es s)
]
comment_run-TakesTurns market_id (is_answered true ∷ es) s = elim (Bool-cases s.is_pending) [
  | inl waits ↦
      rw waits (
        refl,
        comment_run-TakesTurns market_id es (record { input_value = []; is_pending = false }),
      )
  | inr idle ↦ rw idle (comment_run-TakesTurns market_id es (record s { is_pending = false }))
]
comment_run-TakesTurns market_id (is_answered false ∷ es) s = elim (Bool-cases s.is_pending) [
  | inl waits ↦
      rw waits (refl, comment_run-TakesTurns market_id es (record s { is_pending = false }))
  | inr idle ↦ rw idle (comment_run-TakesTurns market_id es (record s { is_pending = false }))
]
