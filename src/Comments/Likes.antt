-- ===== src/Comments/Likes.antt =====
-- frontend/seer/src/ui/comments/CommentThread.tsx: likes that are shown before they are confirmed. A server that keeps
-- whether the reader likes the comment takes each like and unlike that succeeds; the number that it shows to all
-- readers is not followed further.
use seer.Common.{
  not-true, ℕ, String, ◌≡◌, refl, sym, Bool, true, false, not, Option, none, some, List, [], ◌∷◌,
  if◌then◌else◌,
}
use seer.Common.Int.{ℤ, suc_ℤ}
use seer.Definitions.Comments.{Comment}
use seer.Comments.{
  Display, Act, Event, press_reply, press_menu, press_elsewhere, press_report, press_delete,
  press_like, press_post, press_replies, types, liked, like_failed, posted, post_failed, reported,
  report_failed, deleted, delete_failed, first_display, press_if, step, mutate_like,
  handle_click_reply, handle_click_tooltip_dropdown, handle_report_comment, send_report,
}
use seer.Comments.Liked.{
  wish, confirm, others, Agrees, like-Agrees, settle-Agrees, undo-Agrees, marked-Agrees, at-pending,
  shown_like, nb_likes-others,
}

module _ {D : Type 0} where
  abbrev Synced : ℤ → Bool → Bool → List Act × Display D → Type 0
  Synced base server wanted next =
      Agrees base server (wish next.0 wanted) next.1.comment next.1.is_like_pending

  press_if-Synced :
      {base : ℤ} (server wanted : Bool) (d : Display D) (b : Bool)
      (handler : Display D → List Act × Display D)
      → Agrees base server wanted d.comment d.is_like_pending
      → (b ≡ true → Synced base server wanted (handler d))
      → Synced base server wanted (press_if b handler d)
  unfolding press_if
  press_if-Synced server wanted d true handler h synced = synced refl
  press_if-Synced server wanted d false handler h synced = h

  -- `liked` is the only event that changes the server.
  answered-Synced :
      {base : ℤ} (server wanted : Bool) (d : Display D) (pending : Bool)
      → d.is_like_pending ≡ pending
      → Agrees base server wanted d.comment pending
      → Synced base
          (confirm liked pending wanted server)
          wanted
          (press_if pending (λ d. ([], record d { is_like_pending = false })) d)
  unfolding press_if
  answered-Synced server wanted d true e h = settle-Agrees server wanted d.comment h
  answered-Synced server wanted d false e h = at-pending false _ (sym e) h

  click_reply-Synced :
      {base : ℤ} (server wanted : Bool) (user : Option String) (d : Display D)
      → Agrees base server wanted d.comment d.is_like_pending
      → Synced base server wanted (handle_click_reply user d)
  click_reply-Synced s w none d h = h
  click_reply-Synced s w (some u) d h = h

  click_menu-Synced :
      {base : ℤ} (server wanted : Bool) (user : Option String) (d : Display D)
      → Agrees base server wanted d.comment d.is_like_pending
      → Synced base server wanted (handle_click_tooltip_dropdown user d)
  click_menu-Synced s w none d h = h
  click_menu-Synced s w (some u) d h = h

  step-Synced :
      (length_of : String → ℕ) {base : ℤ} (server wanted : Bool) (user : Option String)
      (event : Event) (d : Display D)
      → Agrees base server wanted d.comment d.is_like_pending
      → Synced base
          (confirm event d.is_like_pending wanted server)
          wanted
          (step length_of user event d)
  unfolding step
  step-Synced length_of s w user press_reply d h =
      press_if-Synced s w d _ (handle_click_reply user) h (λ _. click_reply-Synced s w user d h)
  step-Synced length_of s w user press_menu d h = click_menu-Synced s w user d h
  step-Synced length_of s w user press_elsewhere d h = h
  step-Synced length_of s w user press_report d h =
      press_if-Synced s w d _ handle_report_comment h
        (λ _. press_if-Synced s w d _ send_report h (λ _. h))
  step-Synced length_of s w user press_delete d h = press_if-Synced s w d _ _ h (λ _. h)
  step-Synced length_of s w user press_like d h =
      press_if-Synced s w d _ mutate_like h
        (λ e. like-Agrees s w d.comment (at-pending _ false (not-true _ e) h))
  step-Synced length_of s w user press_post d h = press_if-Synced s w d _ _ h (λ _. h)
  step-Synced length_of s w user press_replies d h = press_if-Synced s w d _ _ h (λ _. h)
  step-Synced length_of s w user (types t) d h = press_if-Synced s w d _ _ h (λ _. h)
  step-Synced length_of s w user liked d h = answered-Synced s w d d.is_like_pending refl h
  step-Synced length_of s w user like_failed d h =
      press_if-Synced s w d _ _ h (λ e. undo-Agrees s w d.comment (at-pending _ true e h))
  step-Synced length_of s w user posted d h = press_if-Synced s w d _ _ h (λ _. h)
  step-Synced length_of s w user post_failed d h = press_if-Synced s w d _ _ h (λ _. h)
  step-Synced length_of s w user reported d h = press_if-Synced s w d _ _ h (λ _. marked-Agrees h)
  step-Synced length_of s w user report_failed d h = press_if-Synced s w d _ _ h (λ _. h)
  step-Synced length_of s w user deleted d h = press_if-Synced s w d _ _ h (λ _. h)
  step-Synced length_of s w user delete_failed d h = press_if-Synced s w d _ _ h (λ _. h)

  -- The display and the server's like after events, each of which comes with the reader who is then signed in.
  abbrev pub follow :
      (String → ℕ) → Bool → Bool → Display D → List (Option String × Event) → Bool × Display D
  follow length_of server wanted d [] = (server, d)
  follow length_of server wanted d ((user, event) ∷ events) =
      let next = step length_of user event d in
      follow length_of (confirm event d.is_like_pending wanted server) (wish next.0 wanted) next.1
        events

  follow-Agrees :
      (length_of : String → ℕ) {base : ℤ} (server wanted : Bool) (d : Display D)
      (events : List (Option String × Event))
      → Agrees base server wanted d.comment d.is_like_pending
      → let final = follow length_of server wanted d events in
        (wanted' : Bool) × Agrees base final.0 wanted' final.1.comment final.1.is_like_pending
  follow-Agrees length_of server wanted d [] h = (wanted, h)
  follow-Agrees length_of server wanted d ((user, event) ∷ events) h =
      follow-Agrees length_of (confirm event d.is_like_pending wanted server)
        (wish (step length_of user event d).0 wanted) (step length_of user event d).1 events
        (step-Synced length_of server wanted user event d h)

  -- Let a comment be displayed with the like that the server keeps. After any presses and answers, it shows the
  -- server's like if no like is pending and the opposite if one is, and its number of likes is that of
  -- the other readers at first, and one more if it is shown as liked.
  pub follow-shows_server :
      (length_of : String → ℕ) (c : Comment D) (events : List (Option String × Event))
      → let final = follow length_of c.is_liked c.is_liked (first_display c) events in
        (final.1.comment.is_liked ≡ (if final.1.is_like_pending then not final.0 else final.0))
        × (final.1.comment.nb_likes
            ≡ (if final.1.comment.is_liked then suc_ℤ (others c) else others c))
  follow-shows_server length_of c events =
      let (wanted', h) =
        follow-Agrees length_of c.is_liked c.is_liked (first_display c) events (record {
          settled_eq = λ _. refl;
          wanted_eq = λ e. cc;
          undo_eq = λ e. cc;
          others_eq = refl;
        }) in
      let final = follow length_of c.is_liked c.is_liked (first_display c) events in
      (shown_like final.1.is_like_pending h, nb_likes-others final.1.comment (others c) h.others_eq)
