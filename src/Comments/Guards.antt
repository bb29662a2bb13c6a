-- ===== src/Comments/Guards.antt =====
-- frontend/seer/src/ui/comments/CommentThread.tsx: which calls a displayed comment makes.
use seer.Common.{
  and-left, and-right, not-true, ℕ, String, ◌≡◌, refl, sym, ◌∙◌, ap, Bool, true, false, not, Option,
  none, some, List, [], ◌∷◌, ◌++◌, All, All-append, Bool-cases, inl, inr,
}
use seer.Common.Int.{pos, ltb_ℤ}
use seer.Definitions.Comments.{Comment}
use seer.Comments.{
  Display, Act, asks_sign_in, likes, unlikes, reports, deletes, replies, Event, press_reply,
  press_menu, press_elsewhere, press_report, press_delete, press_like, press_post, press_replies,
  types, liked, like_failed, posted, post_failed, reported, report_failed, deleted, delete_failed,
  max_depth, first_display, toggle_like, like_request, is_comment_writer, input_valid, press_if,
  step, handle_click_reply, handle_click_tooltip_dropdown, handle_report_comment, send_report,
  mutate_like, mutate_comment, handle_delete_comment, mark_reported,
}

-- What is asked for, by whom.
abbrev pub by : {A : Type 0} → Option String → List A → List (Option String × A)
by user [] = []
by user (a ∷ l) = (user, a) ∷ by user l

module _ {D : Type 0} (length_of : String → ℕ) where
  -- The calls of a display, each event of which comes with the reader who is then signed in.
  abbrev pub run : Display D → List (Option String × Event) → List (Option String × Act)
  run d [] = []
  run d ((user, event) ∷ events) =
      let next = step length_of user event d in
      let rest = run next.1 events in by user next.0 ++ rest

  -- What each call has to satisfy.
  abbrev pub IsRight : Comment D → Option String × Act → Type 0
  IsRight c (user, asks_sign_in) = user ≡ none
  IsRight c (user, likes id) = id ≡ c.id
  IsRight c (user, unlikes id) = id ≡ c.id
  IsRight c (user, reports id) = (id ≡ c.id) × (is_comment_writer user c ≡ false)
  IsRight c (user, deletes id) = (id ≡ c.id) × (is_comment_writer user c ≡ true)
  IsRight c (user, replies post) =
      (post.parent_id ≡ some c.id)
      × (post.market_id ≡ c.market_id)
      × (input_valid length_of post.content ≡ true)
      × (ltb_ℤ c.depth (pos max_depth) ≡ true)

  -- The comment, as far as its marks go, with a reply input that is open only above the greatest depth.
  record IsShown (c x : Comment D) (opened : Bool) : Type 0 where
    id_eq : x.id ≡ c.id
    market_eq : x.market_id ≡ c.market_id
    depth_eq : x.depth ≡ c.depth
    writer_eq : x.user.id ≡ c.user.id
    input_depth : opened ≡ true → ltb_ℤ c.depth (pos max_depth) ≡ true

  abbrev Displays : Comment D → Display D → Type 0
  Displays c d = IsShown c d.comment d.show_reply_input

  marked-IsShown :
      {c x : Comment D} {opened : Bool} → IsShown c x opened → IsShown c (mark_reported x) opened
  marked-IsShown h = record {
    id_eq = h.id_eq;
    market_eq = h.market_eq;
    depth_eq = h.depth_eq;
    writer_eq = h.writer_eq;
    input_depth = h.input_depth;
  }

  toggled-IsShown :
      {c x : Comment D} {opened : Bool} → IsShown c x opened → IsShown c (toggle_like x) opened
  unfolding toggle_like
  toggled-IsShown h = record {
    id_eq = h.id_eq;
    market_eq = h.market_eq;
    depth_eq = h.depth_eq;
    writer_eq = h.writer_eq;
    input_depth = h.input_depth;
  }

  opened-IsShown :
      {c x : Comment D} {opened : Bool} (opened' : Bool)
      → IsShown c x opened
      → (opened' ≡ true → ltb_ℤ c.depth (pos max_depth) ≡ true)
      → IsShown c x opened'
  opened-IsShown opened' h deep = record {
    id_eq = h.id_eq;
    market_eq = h.market_eq;
    depth_eq = h.depth_eq;
    writer_eq = h.writer_eq;
    input_depth = deep;
  }

  abbrev Good : Comment D → Option String → List Act × Display D → Type 0
  Good c user next = All (IsRight c) (by user next.0) × Displays c next.1

  press_if-Good :
      {c : Comment D} (user : Option String) (d : Display D) (b : Bool)
      (handler : Display D → List Act × Display D)
      → Displays c d
      → (b ≡ true → Good c user (handler d))
      → Good c user (press_if b handler d)
  unfolding press_if
  press_if-Good user d true handler h good = good refl
  press_if-Good user d false handler h good = (tt, h)

  writer-eq :
      {c : Comment D} (d : Display D) (user : Option String)
      → Displays c d
      → is_comment_writer user c ≡ is_comment_writer user d.comment
  writer-eq d none h = refl
  writer-eq d (some u) h = rw h.writer_eq refl

  click_reply-Good :
      {c : Comment D} (d : Display D) (user : Option String)
      → Displays c d
      → ltb_ℤ c.depth (pos max_depth) ≡ true
      → Good c user (handle_click_reply user d)
  click_reply-Good d none h deep = ((refl, tt), h)
  click_reply-Good d (some u) h deep = (tt, opened-IsShown (not d.show_reply_input) h (λ _. deep))

  click_menu-Good :
      {c : Comment D} (d : Display D) (user : Option String)
      → Displays c d
      → Good c user (handle_click_tooltip_dropdown user d)
  click_menu-Good d none h = ((refl, tt), h)
  click_menu-Good d (some u) h = (tt, h)

  report-Good :
      {c : Comment D} (d : Display D) (user : Option String)
      → Displays c d
      → is_comment_writer user c ≡ false
      → Good c user (handle_report_comment d)
  report-Good d user h other =
      press_if-Good user d (not d.comment.is_reported) send_report h
        (λ _. (((h.id_eq, other), tt), h))

  like_request-IsRight :
      (c x : Comment D) (user : Option String) → x.id ≡ c.id → IsRight c (user, like_request x)
  like_request-IsRight c x user same = elim (Bool-cases x.is_liked) [
    | inl already ↦ rw already same
    | inr first ↦ rw first same
  ]

  step-Good :
      {c : Comment D} (d : Display D) (user : Option String) (event : Event)
      → Displays c d
      → Good c user (step length_of user event d)
  unfolding step
  step-Good d user press_reply h = press_if-Good user d _ _ h (λ e.
      click_reply-Good d user h (ap (λ depth. ltb_ℤ depth (pos max_depth)) (sym h.depth_eq) ∙ e))
  step-Good d user press_menu h = click_menu-Good d user h
  step-Good d user press_elsewhere h = (tt, h)
  step-Good d user press_report h =
      press_if-Good user d _ _ h (λ e.
        report-Good d user h (writer-eq d user h ∙ not-true _ (and-left _ _ (and-right _ _ e))))
  step-Good d user press_delete h =
      press_if-Good user d _ handle_delete_comment h
        (λ e. (((h.id_eq, writer-eq d user h ∙ and-left _ _ (and-right _ _ e)), tt), h))
  step-Good d user press_like h =
      press_if-Good user d _ mutate_like h
        (λ _. ((like_request-IsRight _ d.comment user h.id_eq, tt), toggled-IsShown h))
  step-Good d user press_post h = press_if-Good user d _ mutate_comment h (λ e. (
    (
      (
        ap some h.id_eq,
        h.market_eq,
        and-left _ _ (and-right _ _ e),
        h.input_depth (and-left _ _ e),
      ),
      tt,
    ),
    h,
  ))
  step-Good d user press_replies h = press_if-Good user d _ _ h (λ _. (tt, h))
  step-Good d user (types s) h = press_if-Good user d _ _ h (λ _. (tt, h))
  step-Good d user liked h = press_if-Good user d _ _ h (λ _. (tt, h))
  step-Good d user like_failed h = press_if-Good user d _ _ h (λ _. (tt, toggled-IsShown h))
  step-Good d user posted h =
      press_if-Good user d _ _ h (λ _. (tt, opened-IsShown false h (λ e. cc)))
  step-Good d user post_failed h = press_if-Good user d _ _ h (λ _. (tt, h))
  step-Good d user reported h = press_if-Good user d _ _ h (λ _. (tt, marked-IsShown h))
  step-Good d user report_failed h = press_if-Good user d _ _ h (λ _. (tt, h))
  step-Good d user deleted h = press_if-Good user d _ _ h (λ _. (tt, h))
  step-Good d user delete_failed h = press_if-Good user d _ _ h (λ _. (tt, h))

  run-AreRight_from :
      {c : Comment D} (d : Display D) (events : List (Option String × Event))
      → Displays c d
      → All (IsRight c) (run d events)
  run-AreRight_from d [] h = tt
  run-AreRight_from {c} d ((user, event) ∷ events) h =
      let (right, h') = step-Good d user event h in
      All-append (IsRight c) (by user (step length_of user event d).0)
        (run (step length_of user event d).1 events) right
        (run-AreRight_from (step length_of user event d).1 events h')

  -- Whatever readers do to a displayed comment and however their calls are answered, only its writer deletes it
  -- and only another one reports it; a reply is at least three characters long, is one to this comment of
  -- this market, and is sent only if the comment is above the greatest depth; a sign-in is asked for only if nobody
  -- is signed in.
  pub run-AreRight :
      (c : Comment D) (events : List (Option String × Event))
      → All (IsRight c) (run (first_display c) events)
  run-AreRight c events = run-AreRight_from (first_display c) events (record {
    id_eq = refl;
    market_eq = refl;
    depth_eq = refl;
    writer_eq = refl;
    input_depth = λ e. cc;
  })
