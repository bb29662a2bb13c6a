-- ===== src/Api/Comments.antt =====
-- frontend/seer/src/lib/api.ts: the functions of comments.
use mathlib.Core.Option
use Prim.Native.String.{◌++◌}
use seer.Common.{String, List, [], ◌∷◌, Option, none, some, true, if◌then◌else◌}
use seer.Common.{◌++◌ as ◌+++◌}
use seer.Common.Int.{ℤ, pos, eqb_ℤ}
use seer.Definitions.Comments.{PostComment, InteractComment}
use seer.Definitions.Searches.{CommentSearch, CommentsRes}
use seer.Api.{
  Backend, Settled, resolved, rejected, Null, post, get, delete, comment, interaction, Call,
  sending, asking, stated_or, command, reader,
}
use seer.Api.Markets.{append_some}

-- An identifier of zero counts as none in `if (search.parentId)`.
abbrev pub nonzero : Option ℤ → Option ℤ
nonzero none = none
nonzero (some i) = if eqb_ℤ i (pos 0) then none else some i

module _ {D : Type 0} (B : Backend D) where
  unfoldable pub comment_params : CommentSearch → List (String × String)
  comment_params search =
      (("marketId", search.market_id) ∷ [])
      +++ append_some "parentId" (Option.map B.number_to_string (nonzero search.parent_id))
      +++ (("page", B.number_to_string search.page)
          ∷ ("pageSize", B.number_to_string search.page_size)
          ∷ [])

  -- A page that was read is held back for half a second.
  abbrev pub held_back : {A : Type 0} → Settled A × B.World → Settled A × B.World
  held_back (resolved a, w) = (resolved a, B.wait w)
  held_back (rejected e, w) = (rejected e, w)

  unfoldable pub get_comments : CommentSearch → Call B (CommentsRes D)
  get_comments search w = held_back (
      reader B (asking B get ("/comments?" ++ B.to_string (comment_params search)) true)
        (stated_or B "Failed to fetch comments") B.parse_comments "Invalid comments data" w)

  unfoldable pub post_comment : PostComment → Call B Null
  post_comment req =
      command B (sending B post "/comments" (comment req)) (stated_or B "Failed to post comment")

  unfoldable pub post_like : InteractComment → Call B Null
  post_like req =
      command B (sending B post "/comments/like" (interaction req))
        (stated_or B "Failed to post comment")

  unfoldable pub delete_like : InteractComment → Call B Null
  delete_like req =
      command B (sending B delete "/comments/like" (interaction req))
        (stated_or B "Failed to delete comment")

  unfoldable pub delete_comment : InteractComment → Call B Null
  delete_comment req =
      command B (sending B delete "/comments" (interaction req))
        (stated_or B "Failed to delete comment")

  unfoldable pub report_comment : InteractComment → Call B Null
  report_comment req =
      command B (sending B post "/comments/report" (interaction req))
        (stated_or B "Failed to report comment")
