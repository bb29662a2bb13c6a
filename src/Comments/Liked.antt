-- ===== src/Comments/Liked.antt =====
-- frontend/seer/src/ui/comments/CommentThread.tsx: what a displayed like has to do with the server's.
use seer.Common.{
  not_swap, ◌≡◌, refl, sym, subst, ◌∙◌, ap, Bool, true, false, not, List, [], ◌∷◌, if◌then◌else◌,
  Bool-cases, inl, inr,
}
use seer.Common.Int.{ℤ, pred_ℤ, suc_ℤ, pred-suc, suc-pred}
use seer.Definitions.Comments.{Comment}
use seer.Comments.{
  Act, asks_sign_in, likes, unlikes, reports, deletes, replies, Event, liked, toggle_like,
  like_request, mark_reported,
}

-- Whether the last of the calls that change the like sets it; `wanted` is what an earlier one did.
abbrev pub wish : List Act → Bool → Bool
wish [] wanted = wanted
wish (likes id ∷ acts) wanted = wish acts true
wish (unlikes id ∷ acts) wanted = wish acts false
wish (asks_sign_in ∷ acts) wanted = wish acts wanted
wish (reports id ∷ acts) wanted = wish acts wanted
wish (deletes id ∷ acts) wanted = wish acts wanted
wish (replies post ∷ acts) wanted = wish acts wanted

-- The server's like, if the event is the success of a call that is pending.
abbrev pub confirm : Event → Bool → Bool → Bool → Bool
confirm liked true wanted server = wanted
confirm _ pending wanted server = server

module _ {D : Type 0} where
  -- The likes of the other readers.
  abbrev pub others : Comment D → ℤ
  others c = if c.is_liked then pred_ℤ c.nb_likes else c.nb_likes

  pub others-toggle_like : (c : Comment D) → others (toggle_like c) ≡ others c
  unfolding toggle_like
  others-toggle_like c = elim (Bool-cases c.is_liked) [
    | inl already ↦ simp already
    | inr first ↦ simp (first, pred-suc c.nb_likes)
  ]

  -- The comment shows the server's like, or the one that a pending call asks for, which is the opposite.
  pub record Agrees (base : ℤ) (server wanted : Bool) (c : Comment D) (pending : Bool)
      : Type 0 where
    pub settled_eq : pending ≡ false → c.is_liked ≡ server
    pub wanted_eq : pending ≡ true → c.is_liked ≡ wanted
    pub undo_eq : pending ≡ true → not c.is_liked ≡ server
    pub others_eq : others c ≡ base

  pub like-Agrees :
      {base : ℤ} (server wanted : Bool) (c : Comment D)
      → Agrees base server wanted c false
      → Agrees base server (wish (like_request c ∷ []) wanted) (toggle_like c) true
  unfolding toggle_like
  like-Agrees server wanted c h = elim (Bool-cases c.is_liked) [
    | inl already ↦ record {
      settled_eq = λ e. cc;
      wanted_eq = λ _. simp already;
      undo_eq = λ _. simp (already, sym (h.settled_eq refl));
      others_eq = (unfold toggle_like in others-toggle_like c) ∙ h.others_eq;
    }
    | inr first ↦ record {
      settled_eq = λ e. cc;
      wanted_eq = λ _. simp first;
      undo_eq = λ _. simp (first, sym (h.settled_eq refl));
      others_eq = (unfold toggle_like in others-toggle_like c) ∙ h.others_eq;
    }
  ]

  pub settle-Agrees :
      {base : ℤ} (server wanted : Bool) (c : Comment D)
      → Agrees base server wanted c true
      → Agrees base wanted wanted c false
  settle-Agrees server wanted c h = record {
    settled_eq = λ _. h.wanted_eq refl;
    wanted_eq = λ e. cc;
    undo_eq = λ e. cc;
    others_eq = h.others_eq;
  }

  pub undo-Agrees :
      {base : ℤ} (server wanted : Bool) (c : Comment D)
      → Agrees base server wanted c true
      → Agrees base server wanted (toggle_like c) false
  unfolding toggle_like
  undo-Agrees server wanted c h = record {
    settled_eq = λ _. h.undo_eq refl;
    wanted_eq = λ e. cc;
    undo_eq = λ e. cc;
    others_eq = (unfold toggle_like in others-toggle_like c) ∙ h.others_eq;
  }

  pub marked-Agrees :
      {base : ℤ} {server wanted : Bool} {c : Comment D} {pending : Bool}
      → Agrees base server wanted c pending
      → Agrees base server wanted (mark_reported c) pending
  marked-Agrees h = record {
    settled_eq = h.settled_eq;
    wanted_eq = h.wanted_eq;
    undo_eq = h.undo_eq;
    others_eq = h.others_eq;
  }

  pub at-pending :
      {base : ℤ} {server wanted : Bool} {c : Comment D} (pending pending' : Bool)
      → pending ≡ pending'
      → Agrees base server wanted c pending
      → Agrees base server wanted c pending'
  at-pending {base} {server} {wanted} {c} pending pending' e h =
      subst (λ b. Agrees base server wanted c b) e h

  pub shown_like :
      {base : ℤ} {server wanted : Bool} {c : Comment D} (pending : Bool)
      → Agrees base server wanted c pending
      → c.is_liked ≡ (if pending then not server else server)
  shown_like {c} true h = not_swap c.is_liked (h.undo_eq refl)
  shown_like false h = h.settled_eq refl

  pub nb_likes-others :
      (c : Comment D) (base : ℤ)
      → others c ≡ base
      → c.nb_likes ≡ (if c.is_liked then suc_ℤ base else base)
  nb_likes-others c base e = elim (Bool-cases c.is_liked) [
    | inl already ↦
        let e' = (rw (already) at e) in rw already (sym (suc-pred c.nb_likes) ∙ ap suc_ℤ e')
    | inr first ↦ let e' = (rw (first) at e) in rw first e'
  ]
