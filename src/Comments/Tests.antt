-- ===== src/Comments/Tests.antt =====
-- The comments at concrete inputs, with a cache that is a function of the key.
use package.text.Mathlib.TextEquality.{eq_iff}
use seer.Common.{
  ℕ, String, ◌≡◌, ◌≢◌, refl, ap, Bool, true, false, Option, none, some, List, [], ◌∷◌, All, str_eq,
  if◌then◌else◌, Bool-cases, inl, inr, not,
}
use seer.Common.Int.{ℤ, pos, eqb_ℤ, eqb_ℤ_iff}
use seer.Definitions.Comments.{Comment}
use seer.Definitions.Searches.{CommentsRes}
use seer.Queries.{KeyPart, text, number, undefined, comment_search_key}
use seer.Comments.{
  Event, press_like, liked, like_failed, press_reply, types, press_post, press_menu, press_delete,
  press_report, first_display,
}
use seer.Comments.Guards.{run, IsRight, run-AreRight}
use seer.Comments.Likes.{follow, follow-shows_server}
use seer.Comments.Deletion.{
  QueryCache, Pages, thread_query_key, on_mutate, on_error, delete_all, IsDeleted,
  on_mutate-IsDeleted, on_error-get_query_data,
}

abbrev part_eqb : KeyPart → KeyPart → Bool
part_eqb (text a) (text b) = str_eq a b
part_eqb (number a) (number b) = eqb_ℤ a b
part_eqb undefined undefined = true
part_eqb _ _ = false

part_eqb_refl : (a : KeyPart) → part_eqb a a ≡ true
part_eqb_refl (text a) = (eq_iff a a).1 refl
part_eqb_refl (number a) = (eqb_ℤ_iff a a).1 refl
part_eqb_refl undefined = refl

part_eqb-eq : (a b : KeyPart) → part_eqb a b ≡ true → a ≡ b
part_eqb-eq (text a) (text b) e = ap text ((eq_iff a b).0 e)
part_eqb-eq (number a) (number b) e = ap number ((eqb_ℤ_iff a b).0 e)
part_eqb-eq undefined undefined e = refl
part_eqb-eq (text a) (number b) e = cc
part_eqb-eq (text a) undefined e = cc
part_eqb-eq (number a) (text b) e = cc
part_eqb-eq (number a) undefined e = cc
part_eqb-eq undefined (text b) e = cc
part_eqb-eq undefined (number b) e = cc

abbrev key_eqb : List KeyPart → List KeyPart → Bool
key_eqb [] [] = true
key_eqb (a ∷ k) (b ∷ l) = let rest = key_eqb k l in if part_eqb a b then rest else false
key_eqb _ _ = false

key_eqb_refl : (k : List KeyPart) → key_eqb k k ≡ true
key_eqb_refl [] = refl
key_eqb_refl (a ∷ k) = simp (part_eqb_refl a, key_eqb_refl k)

key_eqb-eq : (k l : List KeyPart) → key_eqb k l ≡ true → k ≡ l
key_eqb-eq [] [] e = refl
key_eqb-eq [] (b ∷ l) e = cc
key_eqb-eq (a ∷ k) [] e = cc
key_eqb-eq (a ∷ k) (b ∷ l) e = elim (Bool-cases (part_eqb a b)) [
  | inl same ↦ let e' = (rw (same) at e) in cc (part_eqb-eq a b same, key_eqb-eq k l e')
  | inr other ↦ let e' = (rw (other) at e) in cc
]

key_eqb-ne : (k l : List KeyPart) → k ≢ l → key_eqb k l ≡ false
key_eqb-ne k l ne = elim (Bool-cases (key_eqb k l)) [
  | inl same ↦ absurd (ne (key_eqb-eq k l same))
  | inr other ↦ other
]

abbrev by_key : (V : Type 0) → QueryCache V
by_key V = record {
  C = List KeyPart → Option V;
  get_query_data = λ k c. c k;
  set_query_data = λ k v c l. if key_eqb l k then some v else c l;
  get-set = λ k v c. rw (key_eqb_refl k) refl;
  get-set_other = λ k l v c ne. rw (key_eqb-ne l k ne) refl;
}

abbrev comment : ℕ → Comment ℕ
comment id = record {
  id = pos id;
  user = record {
    id = "u";
    username = "u";
    profile_image_key = none;
    total_wagered = 0;
    created_at = pos 0;
  };
  market_id = "m";
  nb_replies = pos 0;
  nb_likes = pos 2;
  is_liked = false;
  is_reported = false;
  content = "abc";
  created_at = pos 0;
  parent_id = none;
  depth = pos 0;
}

abbrev page : CommentsRes ℕ
page = record {
  comments = comment 1 ∷ comment 2 ∷ [];
  metadata = record {
    current_page = pos 1;
    page_size = pos 10;
    first_page = pos 1;
    last_page = pos 1;
    total_records = pos 2;
  };
}

abbrev thread : Pages ℕ
thread = record { pages = page ∷ []; page_params = pos 1 ∷ [] }

abbrev cache : List KeyPart → Option (Pages ℕ)
cache k = some thread

on_mutate-IsDeleted_example :
    IsDeleted
      (by_key (Pages ℕ))
      (comment 1)
      cache
      (on_mutate (by_key (Pages ℕ)) (comment 1) cache).1
      thread
on_mutate-IsDeleted_example = on_mutate-IsDeleted (by_key (Pages ℕ)) (comment 1) cache thread refl

on_error-get_query_data_example :
    let begun = on_mutate (by_key (Pages ℕ)) (comment 1) cache in
    let after = delete_all (by_key (Pages ℕ)) (comment 2 ∷ []) begun.1 in
    (on_error (by_key (Pages ℕ)) (comment 1) begun.0 after (thread_query_key (comment 1))
      ≡ some thread)
    × ((market : String) (parent : Option ℤ)
        → ¬ ((market ≡ "m") × (parent ≡ none))
        → on_error (by_key (Pages ℕ)) (comment 1) begun.0 after (comment_search_key market parent)
          ≡ after (comment_search_key market parent))
on_error-get_query_data_example =
    on_error-get_query_data (by_key (Pages ℕ)) (comment 1) cache thread (comment 2 ∷ []) refl

abbrev three : String → ℕ
three s = 3

abbrev events : List (Option String × Event)
events =
    (some "v", press_reply)
    ∷ (some "v", types "abc")
    ∷ (some "v", press_post)
    ∷ (some "u", press_menu)
    ∷ (some "u", press_report)
    ∷ (some "u", press_delete)
    ∷ (none, press_like)
    ∷ (none, press_reply)
    ∷ (none, like_failed)
    ∷ (some "v", press_like)
    ∷ (some "v", liked)
    ∷ []

run-AreRight_example :
    All (IsRight three (comment 1)) (run three (first_display (comment 1)) events)
run-AreRight_example = run-AreRight three (comment 1) events

follow-shows_server_example :
    let final = follow three false false (first_display (comment 1)) events in
    (final.1.comment.is_liked ≡ (if final.1.is_like_pending then not final.0 else final.0))
    × (final.1.comment.nb_likes ≡ (if final.1.comment.is_liked then pos 3 else pos 2))
follow-shows_server_example = follow-shows_server three (comment 1) events
