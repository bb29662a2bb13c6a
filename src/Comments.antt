-- ===== src/Comments.antt =====
-- frontend/seer/src/ui/comments/CommentThread.tsx: a comment, with what a reader may do to it.
pub mod Guards
pub mod Liked
pub mod Likes
pub mod Deletion
mod Tests
use seer.Common.{
  ℕ, String, Bool, true, false, not, ◌&&◌, ◌||◌, Option, none, some, List, [], ◌∷◌, if◌then◌else◌,
  leb, str_eq,
}
use seer.Common.Int.{ℤ, pos, ltb_ℤ, suc_ℤ, pred_ℤ}
use seer.Definitions.Comments.{Comment, PostComment}

-- The state of CommentDisplay, its comment, which it changes in place, and which mutations are pending.
pub record Display (D : Type 0) : Type 0 where
  pub comment : Comment D
  pub show_replies : Bool
  pub show_reply_input : Bool
  pub input_value : String
  pub show_dropdown_report : Bool
  pub is_comment_pending : Bool
  pub is_like_pending : Bool
  pub is_report_pending : Bool
  pub is_delete_pending : Bool

-- What it asks of others: a sign-in, or a call of lib/api.ts.
pub data Act : Type 0 where
  asks_sign_in : Act
  likes unlikes reports deletes : ℤ → Act
  replies : PostComment → Act

-- A press of one of its buttons, a press elsewhere or of Escape, a text typed, or the answer to a call.
pub data Event : Type 0 where
  press_reply press_menu press_elsewhere press_report press_delete press_like press_post
        press_replies :
      Event
  types : String → Event
  liked like_failed posted post_failed reported report_failed deleted delete_failed : Event

abbrev pub max_depth : ℕ
max_depth = 5

abbrev pub is_signed_in : Option String → Bool
is_signed_in none = false
is_signed_in (some user) = true

-- `inputValue.length` counts UTF-16 units, which `length_of` stands for.
abbrev pub input_valid : (String → ℕ) → String → Bool
input_valid length_of value = leb 3 (length_of value)

module _ {D : Type 0} where
  abbrev pub first_display : Comment D → Display D
  first_display comment = record {
    comment = comment;
    show_replies = false;
    show_reply_input = false;
    input_value = "";
    show_dropdown_report = false;
    is_comment_pending = false;
    is_like_pending = false;
    is_report_pending = false;
    is_delete_pending = false;
  }

  -- `comment.isLiked = !comment.isLiked` and what follows it.
  unfoldable pub toggle_like : Comment D → Comment D
  toggle_like c = record c {
    is_liked = not c.is_liked;
    nb_likes = if c.is_liked then pred_ℤ c.nb_likes else suc_ℤ c.nb_likes;
  }

  -- `comment.isReported = true`
  abbrev pub mark_reported : Comment D → Comment D
  mark_reported c = record c { is_reported = true }

  abbrev pub like_request : Comment D → Act
  like_request c = if c.is_liked then unlikes c.id else likes c.id

  abbrev pub is_comment_writer : Option String → Comment D → Bool
  is_comment_writer none c = false
  is_comment_writer (some user) c = str_eq user c.user.id

  -- What is not allowed, disabled or not shown does nothing.
  unfoldable pub press_if :
      Bool → (Display D → List Act × Display D) → Display D → List Act × Display D
  press_if true handler d = handler d
  press_if false handler d = ([], d)

  abbrev pub handle_click_reply : Option String → Display D → List Act × Display D
  handle_click_reply user d =
      if not (is_signed_in user)
      then (asks_sign_in ∷ [], d)
      else ([], record d { show_reply_input = not d.show_reply_input })

  abbrev pub handle_click_tooltip_dropdown : Option String → Display D → List Act × Display D
  handle_click_tooltip_dropdown user d =
      if not (is_signed_in user)
      then (asks_sign_in ∷ [], d)
      else ([], record d { show_dropdown_report = not d.show_dropdown_report })

  abbrev pub handle_delete_comment : Display D → List Act × Display D
  handle_delete_comment d = (
    deletes d.comment.id ∷ [],
    record d { show_dropdown_report = false; is_delete_pending = true },
  )

  abbrev pub send_report : Display D → List Act × Display D
  send_report d = (
    reports d.comment.id ∷ [],
    record d { show_dropdown_report = false; is_report_pending = true },
  )

  abbrev pub handle_report_comment : Display D → List Act × Display D
  handle_report_comment d = press_if (not d.comment.is_reported) send_report d

  abbrev pub mutate_like : Display D → List Act × Display D
  mutate_like d = (
    like_request d.comment ∷ [],
    record d { comment = toggle_like d.comment; is_like_pending = true },
  )

  abbrev pub mutate_comment : Display D → List Act × Display D
  mutate_comment d = (
    replies (record {
      market_id = d.comment.market_id;
      content = d.input_value;
      parent_id = some d.comment.id;
    })
        ∷ [],
    record d { is_comment_pending = true },
  )

  -- A call is answered while it is pending.
  unfoldable pub step : (String → ℕ) → Option String → Event → Display D → List Act × Display D
  step length_of user press_reply d =
      press_if (ltb_ℤ d.comment.depth (pos max_depth)) (handle_click_reply user) d
  step length_of user press_menu d = handle_click_tooltip_dropdown user d
  step length_of user press_elsewhere d = ([], record d { show_dropdown_report = false })
  step length_of user press_report d =
      press_if
        (d.show_dropdown_report
          && (not (is_comment_writer user d.comment) && not d.is_report_pending))
        handle_report_comment d
  step length_of user press_delete d =
      press_if
        (d.show_dropdown_report && (is_comment_writer user d.comment && not d.is_delete_pending))
        handle_delete_comment d
  step length_of user press_like d = press_if (not d.is_like_pending) mutate_like d
  step length_of user press_post d =
      press_if
        (d.show_reply_input && (input_valid length_of d.input_value && not d.is_comment_pending))
        mutate_comment d
  step length_of user press_replies d =
      press_if (ltb_ℤ (pos 0) d.comment.nb_replies)
        (λ d. ([], record d { show_replies = not d.show_replies })) d
  step length_of user (types s) d =
      press_if d.show_reply_input (λ d. ([], record d { input_value = s })) d
  step length_of user liked d =
      press_if d.is_like_pending (λ d. ([], record d { is_like_pending = false })) d
  step length_of user like_failed d =
      press_if d.is_like_pending
        (λ d. ([], record d { comment = toggle_like d.comment; is_like_pending = false })) d
  step length_of user posted d =
      press_if d.is_comment_pending
        (λ d. (
          [],
          record d {
            input_value = "";
            show_reply_input = false;
            show_replies = true;
            is_comment_pending = false;
          },
        ))
        d
  step length_of user post_failed d =
      press_if d.is_comment_pending (λ d. ([], record d { is_comment_pending = false })) d
  step length_of user reported d =
      press_if d.is_report_pending
        (λ d. ([], record d { comment = mark_reported d.comment; is_report_pending = false })) d
  step length_of user report_failed d =
      press_if d.is_report_pending (λ d. ([], record d { is_report_pending = false })) d
  step length_of user deleted d =
      press_if d.is_delete_pending (λ d. ([], record d { is_delete_pending = false })) d
  step length_of user delete_failed d =
      press_if d.is_delete_pending (λ d. ([], record d { is_delete_pending = false })) d
