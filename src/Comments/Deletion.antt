-- ===== src/Comments/Deletion.antt =====
-- frontend/seer/src/ui/comments/CommentThread.tsx: deletions that are shown before they are confirmed. The cache of
-- queries is a third-party library's: QueryCache says what is documented of `getQueryData` and `setQueryData`.
use mathlib.Core.List.{Memᴰ}
use mathlib.Core.List.Memᴰ
use seer.Common.{
  subst, absurd_of_true, ◌↔◌, String, ◌≡◌, ◌≢◌, refl, sym, ◌∙◌, ap, not, Option, none, some, List,
  [], ◌∷◌, ◌++◌, map, if◌then◌else◌, Bool-cases, inl, inr,
}
use seer.Common.Int.{ℤ, eqb_ℤ, eqb_ℤ_iff}
use seer.Definitions.Comments.{Comment}
use seer.Definitions.Searches.{CommentsRes}
use seer.Queries.{KeyPart, comment_search_key}
use seer.Queries.Keys.{comment_search_key-eq_iff}

pub record QueryCache (V : Type 0) : Type 1 where
  pub C : Type 0
  pub get_query_data : List KeyPart → C → Option V
  pub set_query_data : List KeyPart → V → C → C
  pub get-set :
      (k : List KeyPart) (v : V) (c : C) → get_query_data k (set_query_data k v c) ≡ some v
  pub get-set_other :
      (k l : List KeyPart) (v : V) (c : C)
      → l ≢ k
      → get_query_data l (set_query_data k v c) ≡ get_query_data l c

-- `InfiniteData`.
pub record Pages (D : Type 0) : Type 0 where
  pub pages : List (CommentsRes D)
  pub page_params : List ℤ

module _ {D : Type 0} where
  abbrev pub without_comment : ℤ → List (Comment D) → List (Comment D)
  without_comment id [] = []
  without_comment id (c ∷ cs) =
      let rest = without_comment id cs in if not (eqb_ℤ c.id id) then c ∷ rest else rest

  abbrev pub page_without : ℤ → CommentsRes D → CommentsRes D
  page_without id page = record {
    comments = without_comment id page.comments;
    metadata = page.metadata;
  }

  abbrev pub pages_without : ℤ → Pages D → Pages D
  pages_without id thread = record thread { pages = map (page_without id) thread.pages }

  -- `data?.pages.flatMap((p) => p.comments)`
  abbrev pub comments_of : List (CommentsRes D) → List (Comment D)
  comments_of [] = []
  comments_of (page ∷ pages) = page.comments ++ comments_of pages

  abbrev pub thread_query_key : Comment D → List KeyPart
  thread_query_key comment = comment_search_key comment.market_id comment.parent_id

module _ {D : Type 0} (Q : QueryCache (Pages D)) where
  open Q use {C, get_query_data, set_query_data, get-set, get-set_other}

  abbrev pub update_pages : List KeyPart → ℤ → Option (Pages D) → C → C
  update_pages key id none cache = cache
  update_pages key id (some thread) cache = set_query_data key (pages_without id thread) cache

  -- The context of the mutation, `{ previousData }`, and the cache.
  unfoldable pub on_mutate : Comment D → C → Option (Pages D) × C
  on_mutate comment cache =
      let previous = get_query_data (thread_query_key comment) cache in
      (previous, update_pages (thread_query_key comment) comment.id previous cache)

  abbrev pub set_back : List KeyPart → Option (Pages D) → C → C
  set_back key none cache = cache
  set_back key (some previous) cache = set_query_data key previous cache

  unfoldable pub on_error : Comment D → Option (Pages D) → C → C
  on_error comment previous cache = set_back (thread_query_key comment) previous cache

  -- Deletions that begin one after the other.
  abbrev pub delete_all : List (Comment D) → C → C
  delete_all [] cache = cache
  delete_all (comment ∷ comments) cache = delete_all comments (on_mutate comment cache).1

  -- The thread of the comment without it, page by page as before, and every other thread as before.
  pub record IsDeleted (comment : Comment D) (before after : C) (thread : Pages D) : Type 0 where
    pub thread_after : Pages D
    pub cached_eq : get_query_data (thread_query_key comment) after ≡ some thread_after
    pub shown_eq :
        comments_of thread_after.pages ≡ without_comment comment.id (comments_of thread.pages)
    pub shown_iff :
        (c : Comment D)
        → Memᴰ c (comments_of thread_after.pages)
          ↔ (Memᴰ c (comments_of thread.pages) × (c.id ≢ comment.id))
    pub metadata_eq :
        map (λ (page : CommentsRes D). page.metadata) thread_after.pages
        ≡ map (λ (page : CommentsRes D). page.metadata) thread.pages
    pub params_eq : thread_after.page_params ≡ thread.page_params
    pub others_eq :
        (market : String) (parent : Option ℤ)
        → ¬ ((market ≡ comment.market_id) × (parent ≡ comment.parent_id))
        → get_query_data (comment_search_key market parent) after
          ≡ get_query_data (comment_search_key market parent) before

  without_comment-append :
      (id : ℤ) (l k : List (Comment D))
      → without_comment id (l ++ k) ≡ without_comment id l ++ without_comment id k
  without_comment-append id [] k = refl
  without_comment-append id (c ∷ l) k = elim (Bool-cases (eqb_ℤ c.id id)) [
    | inl same ↦ simp (same, without_comment-append id l k)
    | inr other ↦ simp (other, without_comment-append id l k)
  ]

  without_comment-mem :
      (id : ℤ) (c : Comment D) (l : List (Comment D))
      → Memᴰ c (without_comment id l)
      → Memᴰ c l × (c.id ≢ id)
  without_comment-mem id c [] m = absurd (Memᴰ.not-nil m)
  without_comment-mem id c (p ∷ l) m = elim (Bool-cases (eqb_ℤ p.id id)) [
    | inl same ↦ let (mem, ne) = without_comment-mem id c l (rw (same) at m) in (Memᴰ.tail mem, ne)
    | inr other ↦ elim (Memᴰ.cases_cons (rw (other) at m)) [
      | inl e ↦ (
        Memᴰ.head e,
        λ f.
            absurd_of_true
              (sym ((eqb_ℤ_iff p.id id).1 (ap (λ (x : Comment D). x.id) (sym e) ∙ f)) ∙ other),
      )
      | inr rest ↦ let (mem, ne) = without_comment-mem id c l rest in (Memᴰ.tail mem, ne)
    ]
  ]

  mem-without_comment :
      (id : ℤ) (c : Comment D) (l : List (Comment D))
      → Memᴰ c l
      → c.id ≢ id
      → Memᴰ c (without_comment id l)
  mem-without_comment id c [] m ne = absurd (Memᴰ.not-nil m)
  mem-without_comment id c (p ∷ l) m ne = elim (Bool-cases (eqb_ℤ p.id id)) [
    | inl same ↦ elim (Memᴰ.cases_cons m) [
      | inl e ↦ absurd (ne (ap (λ (x : Comment D). x.id) e ∙ (eqb_ℤ_iff p.id id).0 same))
      | inr rest ↦ rw same (mem-without_comment id c l rest ne)
    ]
    | inr other ↦ elim (Memᴰ.cases_cons m) [
      | inl e ↦ rw other (Memᴰ.head e)
      | inr rest ↦ rw other (Memᴰ.tail (mem-without_comment id c l rest ne))
    ]
  ]

  comments_of-without_comment :
      (id : ℤ) (pages : List (CommentsRes D))
      → comments_of (map (page_without id) pages) ≡ without_comment id (comments_of pages)
  comments_of-without_comment id [] = refl
  comments_of-without_comment id (page ∷ pages) =
      ap (λ rest. without_comment id page.comments ++ rest) (comments_of-without_comment id pages)
      ∙ sym (without_comment-append id page.comments (comments_of pages))

  metadata-without_comment :
      (id : ℤ) (pages : List (CommentsRes D))
      → map (λ (page : CommentsRes D). page.metadata) (map (page_without id) pages)
        ≡ map (λ (page : CommentsRes D). page.metadata) pages
  metadata-without_comment id [] = refl
  metadata-without_comment id (page ∷ pages) =
      ap (λ rest. page.metadata ∷ rest) (metadata-without_comment id pages)

  -- A thread of another market or another parent has another key.
  key-ne :
      (market : String) (parent : Option ℤ) (comment : Comment D)
      → ¬ ((market ≡ comment.market_id) × (parent ≡ comment.parent_id))
      → comment_search_key market parent ≢ thread_query_key comment
  key-ne market parent comment other e =
      other ((comment_search_key-eq_iff market comment.market_id parent comment.parent_id).0 e)

  -- A deletion that begins takes the comment out of its thread, if that is cached, whichever page it is on, and
  -- leaves the pages' metadata and every other thread as they are.
  pub on_mutate-IsDeleted :
      (comment : Comment D) (cache : C) (thread : Pages D)
      → get_query_data (thread_query_key comment) cache ≡ some thread
      → IsDeleted comment cache (on_mutate comment cache).1 thread
  unfolding on_mutate
  on_mutate-IsDeleted comment cache thread cached = rw cached (record {
    thread_after = pages_without comment.id thread;
    cached_eq = get-set _ _ cache;
    shown_eq = comments_of-without_comment comment.id thread.pages;
    shown_iff = λ c.
        subst (λ shown. Memᴰ c shown ↔ (Memᴰ c (comments_of thread.pages) × (c.id ≢ comment.id)))
          (sym (comments_of-without_comment comment.id thread.pages))
          (
            λ m. without_comment-mem comment.id c (comments_of thread.pages) m,
            λ (m, ne). mem-without_comment comment.id c (comments_of thread.pages) m ne,
          );
    metadata_eq = metadata-without_comment comment.id thread.pages;
    params_eq = refl;
    others_eq =
        λ market parent other. get-set_other _ _ _ cache (key-ne market parent comment other);
  })

  -- If a deletion fails, its thread is again what it was before the deletion began, whichever deletions
  -- began since, in this thread or in others, and every other thread is as those left it.
  pub on_error-get_query_data :
      (comment : Comment D) (cache : C) (thread : Pages D) (later : List (Comment D))
      → get_query_data (thread_query_key comment) cache ≡ some thread
      → let begun = on_mutate comment cache in
        (get_query_data
            (thread_query_key comment)
            (on_error comment begun.0 (delete_all later begun.1))
          ≡ some thread)
        × ((market : String) (parent : Option ℤ)
            → ¬ ((market ≡ comment.market_id) × (parent ≡ comment.parent_id))
            → get_query_data
                (comment_search_key market parent)
                (on_error comment begun.0 (delete_all later begun.1))
              ≡ get_query_data (comment_search_key market parent) (delete_all later begun.1))
  unfolding on_mutate on_error
  on_error-get_query_data comment cache thread later cached = rw cached (
    get-set _ thread _,
    λ market parent other. get-set_other _ _ thread _ (key-ne market parent comment other),
  )
