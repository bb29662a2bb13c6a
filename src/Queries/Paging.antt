-- ===== src/Queries/Paging.antt =====
-- frontend/seer/src/lib/meta.ts, with lib/queries/useBetsQuery.ts, ui/comments/CommentThread.tsx and the
-- other lists that load page after page. The loop is the library's, which is documented to ask for the first
-- page, and then for the page that `getNextPageParam` gives for the last one, until that is `undefined`.
use seer.Common.{
  ℕ, zero, suc, ◌+◌, ◌-◌, ◌≤◌, ◌<◌, ◌≡◌, ◌↔◌, false, refl, sym, ap, subst, ◌∙◌, Option, none, some,
  List, [], ◌∷◌, arith, lt→ltb, ltb,
}
use seer.Common.Int.{ℤ, pos}
use seer.Definitions.{Metadata}
use seer.Definitions.Searches.{CommentSearch, UserBetSearch}
use seer.Queries.{get_next_page_param_from_metadata}

-- `{ ...search, page: pageParam }`
abbrev pub page_of_comments : CommentSearch → ℤ → CommentSearch
page_of_comments search page = record search { page = page }

abbrev pub page_of_bets : UserBetSearch → ℤ → UserBetSearch
page_of_bets search page = record search { page = page }

ltb_irrefl : (n : ℕ) → ltb n n ≡ false
ltb_irrefl n = ground arith

module _ {P : Type 0} (query : ℤ → P) (metadata : P → Metadata) where
  -- What is left to load: nothing, or the pages from one on.
  abbrev pub Remains : (ℤ → Type 0) → List P → Option ℤ → Type 0
  Remains later ps none = ps ≡ []
  Remains later ps (some next) = later next

  -- `ps` are the pages that are loaded when the first of them is asked for as `page`, and each after it as the
  -- next one of that before, until there is none.
  abbrev pub AreLoaded : List P → ℤ → Type 0
  AreLoaded [] page = ⊥
  AreLoaded (p ∷ ps) page =
      (p ≡ query page) × Remains (AreLoaded ps) ps (get_next_page_param_from_metadata (metadata p))

  abbrev pub upto : ℕ → ℕ → List P
  upto k zero = []
  upto k (suc n) = query (pos k) ∷ upto (suc k) n

  -- A server whose list has `last` pages, and that says so on each.
  abbrev pub HasPages : ℕ → Type 0
  HasPages last =
      (k : ℕ)
      → 1 ≤ k
      → k ≤ last
      → ((metadata (query (pos k))).current_page ≡ pos k)
        × ((metadata (query (pos k))).last_page ≡ pos last)

  module _ (last : ℕ) (pages : HasPages last) where
    next_before :
        (k : ℕ)
        → 1 ≤ k
        → k < last
        → get_next_page_param_from_metadata (metadata (query (pos k))) ≡ some (pos (suc k))
    unfolding get_next_page_param_from_metadata
    next_before k one below =
        let (current, end) = pages k one (omega arith) in
        rw (current, end, lt→ltb (k + 0) (last + 0) (omega arith)) refl

    next_at_end : 1 ≤ last → get_next_page_param_from_metadata (metadata (query (pos last))) ≡ none
    unfolding get_next_page_param_from_metadata
    next_at_end one =
        let (current, end) = pages last one (omega arith) in
        rw (current, end, ltb_irrefl (last + 0)) refl

    upto_of_loaded :
        (ps : List P) (k d : ℕ) → 1 ≤ k → k + d ≡ last → AreLoaded ps (pos k) → ps ≡ upto k (suc d)
    upto_of_loaded [] k d one end h = elim h [ ]
    upto_of_loaded (p ∷ ps) k zero one end (e, r) =
        let at_last : k ≡ last = omega arith in
        let none_left =
          subst (Remains (AreLoaded ps) ps)
            (ap (λ q. get_next_page_param_from_metadata (metadata q)) e
              ∙ ap (λ i. get_next_page_param_from_metadata (metadata (query (pos i)))) at_last
              ∙ next_at_end (omega arith))
            r in
        cc (e, none_left)
    upto_of_loaded (p ∷ ps) k (suc d) one end (e, r) =
        let later =
          subst (Remains (AreLoaded ps) ps)
            (ap (λ q. get_next_page_param_from_metadata (metadata q)) e
              ∙ next_before k one (omega arith))
            r in
        cc (e, upto_of_loaded ps (suc k) d (omega arith) (omega arith) later)

    loaded_upto : (k d : ℕ) → 1 ≤ k → k + d ≡ last → AreLoaded (upto k (suc d)) (pos k)
    loaded_upto k zero one end =
        let at_last : k ≡ last = omega arith in
        (
          refl,
          subst (Remains (AreLoaded []) [])
              (sym (
                ap (λ i. get_next_page_param_from_metadata (metadata (query (pos i)))) at_last
                ∙ next_at_end (omega arith)))
              refl,
        )
    loaded_upto k (suc d) one end = (
      refl,
      subst (Remains (AreLoaded (upto (suc k) (suc d))) (upto (suc k) (suc d)))
          (sym (next_before k one (omega arith)))
          (loaded_upto (suc k) d (omega arith) (omega arith)),
    )

    -- From a server with at least one page that says on each how many there are, exactly the pages from the
    -- first to the last are loaded, each once and in order, and then the loading ends.
    pub AreLoaded-upto_iff : 1 ≤ last → (ps : List P) → AreLoaded ps (pos 1) ↔ (ps ≡ upto 1 last)
    AreLoaded-upto_iff one ps = (
      λ h.
          subst (λ n. ps ≡ upto 1 n) whole
            (upto_of_loaded ps 1 (last - 1) (omega arith) (omega arith) h),
      λ e.
          subst (λ l. AreLoaded l (pos 1)) (sym e)
            (subst (λ n. AreLoaded (upto 1 n) (pos 1)) whole
              (loaded_upto 1 (last - 1) (omega arith) (omega arith))),
    )
      where
        whole : suc (last - 1) ≡ last
        whole = omega arith
