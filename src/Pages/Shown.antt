-- ===== src/Pages/Shown.antt =====
-- frontend/seer/src/app/(main)/(markets)/page.tsx: which list the home page shows, where its redirect ends, and whether
-- it finds what the row of categories fetched before.
use seer.Common.{
  ℕ, ◌≡◌, ◌≢◌, inl, inr, refl, sym, ap, ◌∙◌, String, true, ◌&&◌, Option, none, some, List, [], ◌∷◌,
  str_eq, eq_iff, eq_refl, Bool-cases, Option-cases, and-left, get_elem?, subst, suc,
}
use mathlib.Core.Option.{some-injective}
use seer.Common.Int.{ℤ, pos}
use seer.Common.Result.{Result, ok, thrown, out_of_fuel, ok-injective}
use seer.Definitions.{Category, MarketStatus, active}
use seer.Definitions.Searches.{MarketSearch, MarketSort, trending}
use seer.Forms.Checks.{StringChecks}
use seer.Queries.{KeyPart, number, market_search_key}
use seer.Pages.{
  PageParams, PageResult, shows_category, find_category, query_schema, slug_schema, sort_schema,
  status_schema, with_sort, market_search_schema, are_options, home_of, slug_or_first, home_at,
  home_page,
}

-- What `search` of ui/markets/home/categories/CategoriesMenu.tsx fetches when a category is pointed at.
abbrev pub prefetch_search : Category → MarketSearch
prefetch_search category = record {
  query = none;
  category_slug = some category.slug;
  status = some active;
  sort = trending;
  page_size = pos 6;
  page = pos 1;
}

-- The search without parameters, in a category.
abbrev pub first_search : Category → MarketSearch
first_search category = record (prefetch_search category) { status = none; page_size = pos 8 }

-- The address of a category's link, and the address `/`.
abbrev pub category_params : Category → PageParams
category_params category = record {
  q = none;
  category = some category.slug;
  sort = none;
  status = none;
}

abbrev pub no_params : PageParams
no_params = record { q = none; category = none; sort = none; status = none }

-- The slug that is asked for, or that of the first category.
abbrev pub IsAsked : List Category → PageParams → String → Type 0
IsAsked categories p slug = slug_or_first p.category categories ≡ ok slug

module _ (Z : StringChecks) where
  -- The search is for the category c, which is listed under the slug that is asked for, with the parameters of the
  -- address, and for the first eight markets.
  pub record IsListing (categories : List Category) (p : PageParams) (s : MarketSearch)
      (c : Category) : Type 0 where
    pub asked : IsAsked categories p c.slug
    pub listed : (i : ℕ) × (get_elem? categories i ≡ some c)
    pub slug_eq : s.category_slug ≡ some c.slug
    pub query_eq : s.query ≡ p.q
    pub query_fits : query_schema Z p.q ≡ true
    pub sort_eq : sort_schema p.sort ≡ some s.sort
    pub status_eq : status_schema p.status ≡ some s.status
    pub first_page : (s.page ≡ pos 1) × (s.page_size ≡ pos 8)

  find_category-listed :
      (slug : String) (cs : List Category) {c : Category}
      → find_category slug cs ≡ some c
      → ((i : ℕ) × (get_elem? cs i ≡ some c)) × (c.slug ≡ slug)
  unfolding find_category
  find_category-listed slug [] e = cc
  find_category-listed slug (d ∷ cs) {c} e = elim (Bool-cases (str_eq d.slug slug)) [
    | inl same ↦
        let e' = (rw (same) at e) in
        ((0, e'), sym (ap (λ (k : Category). k.slug) (some-injective _ _ e')) ∙ (eq_iff _ _).0 same)
    | inr other ↦
        let e' = (rw (other) at e) in
        let ((i, at'), own) = find_category-listed slug cs e' in ((suc i, at'), own)
  ]

  -- What an accepted search holds.
  record IsParsed (p : PageParams) (slug : Option String) (size : ℤ) (s : MarketSearch)
      : Type 0 where
    slug_eq : s.category_slug ≡ slug
    query_eq : s.query ≡ p.q
    query_fits : query_schema Z p.q ≡ true
    sort_eq : sort_schema p.sort ≡ some s.sort
    status_eq : status_schema p.status ≡ some s.status
    page_eq : s.page ≡ pos 1
    size_eq : s.page_size ≡ size

  with_sort-IsParsed :
      (p : PageParams) (slug : Option String) (size : ℤ) (o : Option MarketSort)
      (t : Option (Option MarketStatus)) {s : MarketSearch}
      → query_schema Z p.q ≡ true
      → sort_schema p.sort ≡ o
      → status_schema p.status ≡ t
      → with_sort p.q slug o t size ≡ some s
      → IsParsed p slug size s
  with_sort-IsParsed p slug size (some o) (some t) {s} fits so st e =
      let same = some-injective _ _ e in
      record {
        slug_eq = ap (λ (k : MarketSearch). k.category_slug) (sym same);
        query_eq = ap (λ (k : MarketSearch). k.query) (sym same);
        query_fits = fits;
        sort_eq = so ∙ ap (λ (k : MarketSearch). some k.sort) same;
        status_eq = st ∙ ap (λ (k : MarketSearch). some k.status) same;
        page_eq = ap (λ (k : MarketSearch). k.page) (sym same);
        size_eq = ap (λ (k : MarketSearch). k.page_size) (sym same);
      }
  with_sort-IsParsed p slug size none t fits so st e = cc
  with_sort-IsParsed p slug size (some o) none fits so st e = cc

  market_search_schema-IsParsed :
      (p : PageParams) (slug : Option String) (size : ℤ) {s : MarketSearch}
      → market_search_schema Z p slug size ≡ some s
      → IsParsed p slug size s
  unfolding market_search_schema
  market_search_schema-IsParsed p slug size e =
      elim (Bool-cases (query_schema Z p.q && slug_schema Z slug)) [
        | inl fits ↦
            let e' = (rw (fits) at e) in
            with_sort-IsParsed p slug size _ _ (and-left _ _ fits) refl refl e'
        | inr not_fitting ↦ let e' = (rw (not_fitting) at e) in cc
      ]

  home_of-IsListing :
      (categories : List Category) (p : PageParams) (slug : String) {s : MarketSearch}
      {c : Category}
      → IsAsked categories p slug
      → home_of Z p slug (find_category slug categories) ≡ shows_category s c
      → IsListing categories p s c
  home_of-IsListing categories p slug {s} {c} asked e =
      elim (Option-cases (find_category slug categories)) [
        | inl missing ↦ let e' = (rw (missing) at e) in cc
        | inr (d, found) ↦ elim (Bool-cases (are_options p)) [
          | inl valid ↦ elim (Option-cases (market_search_schema Z p (some slug) (pos 8))) [
            | inl refused ↦ let e' = (rw (found, valid, refused) at e) in cc
            | inr (t, accepted) ↦
                let e' : shows_category t d ≡ shows_category s c =
                  (rw (found, valid, accepted) at e) in
                listing categories p slug t d asked (find_category-listed slug categories found)
                  (market_search_schema-IsParsed p (some slug) (pos 8) accepted) e'
          ]
          | inr invalid ↦ let e' = (rw (found, invalid) at e) in cc
        ]
      ]
    where
      searched : PageResult → MarketSearch → MarketSearch
      searched (shows_category s c) d = s
      searched _ d = d

      category_in : PageResult → Category → Category
      category_in (shows_category s c) d = c
      category_in _ d = d

      listing :
          (categories : List Category) (p : PageParams) (slug : String) (t : MarketSearch)
          (d : Category) {s : MarketSearch} {c : Category}
          → IsAsked categories p slug
          → ((i : ℕ) × (get_elem? categories i ≡ some d)) × (d.slug ≡ slug)
          → IsParsed p (some slug) (pos 8) t
          → shows_category t d ≡ shows_category s c
          → IsListing categories p s c
      listing categories p slug t d {s} {c} asked ((i, at'), own) h e =
          let same : t ≡ s = ap (λ r. searched r t) e in
          let under : d ≡ c = ap (λ r. category_in r d) e in
          subst (λ k. IsListing categories p k c) same
            (subst (λ k. IsListing categories p t k) under
              (record {
                asked = asked ∙ ap ok (sym own);
                listed = (i, at');
                slug_eq = h.slug_eq ∙ ap some (sym own);
                query_eq = h.query_eq;
                query_fits = h.query_fits;
                sort_eq = h.sort_eq;
                status_eq = h.status_eq;
                first_page = (h.page_eq, h.size_eq);
              }))

  -- The home page lists markets only for a category that is listed under the slug that its address asks for, or the
  -- first one if it asks for none; the search has the query, the order and the status of the address, by trend if it
  -- has no order, and the query has a length that is accepted; it is for the first eight markets.
  pub home_page-IsListing :
      (categories : List Category) (p : PageParams) (s : MarketSearch) (c : Category)
      → home_page Z categories p ≡ ok (shows_category s c)
      → IsListing categories p s c
  unfolding home_page
  home_page-IsListing categories p s c e = from (slug_or_first p.category categories) refl e
    where
      from :
          (r : Result String)
          → slug_or_first p.category categories ≡ r
          → home_at Z categories p r ≡ ok (shows_category s c)
          → IsListing categories p s c
      from (ok slug) asked e = home_of-IsListing categories p slug asked (ok-injective e)
      from thrown asked e = cc
      from out_of_fuel asked e = cc

  -- What is fetched when a category is pointed at is never what its page then reads: the two searches have different
  -- keys, whatever the categories are.
  pub prefetch_search_missed :
      (categories : List Category) (category c : Category) (s : MarketSearch)
      → home_page Z categories (category_params category) ≡ ok (shows_category s c)
      → market_search_key (some (prefetch_search category)) ≢ market_search_key (some s)
  unfolding market_search_key
  prefetch_search_missed categories category c s shown same =
      let h = home_page-IsListing categories (category_params category) s c shown in
      let sizes : number (pos 6) ≡ number s.page_size = ap (λ l. part l (number (pos 0))) same in
      cc (sizes, h.first_page.1)
    where
      part : List KeyPart → KeyPart → KeyPart
      part (_ ∷ _ ∷ _ ∷ _ ∷ _ ∷ _ ∷ _ ∷ _ ∷ _ ∷ _ ∷ k ∷ _) d = k
      part _ d = d

  -- With a featured category whose slug is accepted, the address that every redirect leads to shows that category: no
  -- redirect leads to another.
  pub home_page_after_redirect :
      (c : Category) (cs : List Category)
      → slug_schema Z (some c.slug) ≡ true
      → home_page Z (c ∷ cs) no_params ≡ ok (shows_category (first_search c) c)
  unfolding home_page market_search_schema find_category
  home_page_after_redirect c cs fits = rw (eq_refl c.slug, fits) refl
