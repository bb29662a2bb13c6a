-- ===== src/App/Feeds/Opened.antt =====
-- frontend/seer/src/app/WsProvider.tsx with the effects of ui/markets/home/MarketCard.tsx and ui/bet/BetModal.tsx: every
-- opening of the socket asks for the markets of the cards and the forms that are mounted.
use seer.Common.{
  ℕ, suc, ◌≡◌, refl, ◌∙◌, ap, subst, String, Bool, true, false, none, some, List, [], ◌∷◌, ◌++◌,
  map, get_elem?, get_elem?-append, get_elem?-length, get_elem?-lt, length, ◌<◌, arith, All,
  All-mono, All-append, ◌==◌, if◌then◌else◌, Bool-cases, inl, inr, length-append,
}
use seer.Socket.{
  WsClient, WsClientOptions, Options, new_client, on_connect, off_connect, handle_open,
  handle_close, fire, emit, add, contains, remove, schedule_reconnect, give_up_or_wait, is_over,
  connect,
}
use seer.App.Feeds.{
  WsRequest, Watcher, asked_by, subscriptions, Page, PageEvent, mounts, unmounts, opens, closes,
  fires, all_requests, first_page, mounted, unmounted, all_sent, asked_by_open, page_run,
}

-- The cards and forms that are mounted, each with its number and its market, when `count` have been mounted.
abbrev pub without : ℕ → List (ℕ × Watcher) → List (ℕ × Watcher)
without k [] = []
without k (c ∷ cs) = if c.0 == k then without k cs else c ∷ without k cs

abbrev pub on_page : List PageEvent → ℕ → List (ℕ × Watcher) → List (ℕ × Watcher)
on_page [] count cs = cs
on_page (mounts w ∷ es) count cs = on_page es (suc count) (cs ++ ((count, w) ∷ []))
on_page (unmounts k ∷ es) count cs = on_page es count (without k cs)
on_page (_ ∷ es) count cs = on_page es count cs

abbrev pub states_of : List (ℕ × Watcher) → List WsRequest
states_of cs = map (λ c. asked_by c.1) cs

module _ {Delay : Type 0} where
  -- The handlers are the provider's and those of the components on the page.
  record AreListening (p : Page Delay) (count : ℕ) (cs : List (ℕ × Watcher)) : Type 0 where
    count_eq : length p.made ≡ count
    handlers_eq : p.client.connect_handlers ≡ 0 ∷ map (λ c. suc c.0) cs
    markets_eq : All (λ c. get_elem? p.made c.0 ≡ some c.1) cs

zero_apart : (n : ℕ) → (0 == suc n) ≡ false
zero_apart n = ground arith

contains-fresh :
    (n : ℕ) (cs : List (ℕ × Watcher))
    → All (λ c. c.0 < n) cs
    → contains (suc n) (map (λ c. suc c.0) cs) ≡ false
unfolding contains
contains-fresh n [] h = refl
contains-fresh n (c ∷ cs) (l, h) =
    let apart : (suc c.0 == suc n) ≡ false = ground arith in rw apart (contains-fresh n cs h)

remove-without :
    (k : ℕ) (cs : List (ℕ × Watcher))
    → remove (suc k) (map (λ c. suc c.0) cs) ≡ map (λ c. suc c.0) (without k cs)
unfolding remove
remove-without k [] = refl
remove-without k (c ∷ cs) = elim (Bool-cases (c.0 == k)) [
  | inl same ↦
      let e : (suc c.0 == suc k) ≡ true = ground arith in rw (same, e) (remove-without k cs)
  | inr apart ↦
      let e : (suc c.0 == suc k) ≡ false = ground arith in
      rw (apart, e) (ap (λ l. suc c.0 ∷ l) (remove-without k cs))
]

All-without {κ} :
    (P : ℕ × Watcher → Type κ) (k : ℕ) (cs : List (ℕ × Watcher)) → All P cs → All P (without k cs)
All-without P k [] h = tt
All-without P k (c ∷ cs) (p, h) = elim (Bool-cases (c.0 == k)) [
  | inl same ↦ rw same (All-without P k cs h)
  | inr apart ↦ rw apart (p, All-without P k cs h)
]

map-append_one :
    (cs : List (ℕ × Watcher)) (n : ℕ) (w : Watcher)
    → map (λ c. suc c.0) (cs ++ ((n, w) ∷ [])) ≡ map (λ c. suc c.0) cs ++ (suc n ∷ [])
map-append_one [] n w = refl
map-append_one (c ∷ cs) n w = ap (λ l. suc c.0 ∷ l) (map-append_one cs n w)

module _ {Delay : Type 0} where
  mounted-AreListening :
      (w : Watcher) (p : Page Delay) (count : ℕ) (cs : List (ℕ × Watcher))
      → AreListening p count cs
      → AreListening (mounted w p) (suc count) (cs ++ ((count, w) ∷ []))
  unfolding on_connect add contains
  mounted-AreListening w p count cs h =
      let fresh = contains-fresh count cs (
        All-mono (λ c e. subst (λ n. c.0 < n) h.count_eq (get_elem?-lt p.made c.0 e)) cs
          h.markets_eq) in
      record {
        count_eq = omega (arith, length-append p.made (w ∷ []), h.count_eq);
        handlers_eq =
            rw (h.count_eq, h.handlers_eq, zero_apart count, fresh, map-append_one cs count w) refl;
        markets_eq =
            All-append _ cs ((count, w) ∷ [])
              (All-mono (λ c e. get_elem?-append p.made w c.0 e) cs h.markets_eq)
              (
                subst (λ n. get_elem? (p.made ++ (w ∷ [])) n ≡ some w) h.count_eq
                    (get_elem?-length p.made w),
                tt,
              );
      }

  unmounted-AreListening :
      (k : ℕ) (p : Page Delay) (count : ℕ) (cs : List (ℕ × Watcher))
      → AreListening p count cs
      → AreListening (unmounted k p) count (without k cs)
  unfolding off_connect remove
  unmounted-AreListening k p count cs h = record {
    count_eq = h.count_eq;
    handlers_eq = rw (h.handlers_eq, zero_apart k) (ap (λ l. 0 ∷ l) (remove-without k cs));
    markets_eq = All-without _ k cs h.markets_eq;
  }

  -- What changes the connection alone.
  same_handlers-AreListening :
      (p : Page Delay) (c : WsClient Delay) (count : ℕ) (cs : List (ℕ × Watcher))
      → c.connect_handlers ≡ p.client.connect_handlers
      → AreListening p count cs
      → AreListening (record p { client = c }) count cs
  same_handlers-AreListening p c count cs e h = record {
    count_eq = h.count_eq;
    handlers_eq = e ∙ h.handlers_eq;
    markets_eq = h.markets_eq;
  }

  module _ (backoff : Options → ℕ → Delay) where
    handle_close-handlers :
        (c : WsClient Delay) → (handle_close backoff c).connect_handlers ≡ c.connect_handlers
    unfolding handle_close schedule_reconnect
    handle_close-handlers c =
        kept (is_over c.options.reconnect_attempts (suc c.reconnect_attempts))
          (record c { ws = none })
      where
        kept :
            (over : Bool) (b : WsClient Delay)
            → (give_up_or_wait backoff over b).connect_handlers ≡ b.connect_handlers
        kept true b = refl
        kept false b = refl

    page_run-AreListening :
        (es : List PageEvent) (p : Page Delay) (count : ℕ) (cs : List (ℕ × Watcher))
        → AreListening p count cs
        → (count' : ℕ) × AreListening (page_run backoff es p) count' (on_page es count cs)
    unfolding handle_open fire
    page_run-AreListening [] p count cs h = (count, h)
    page_run-AreListening (mounts w ∷ es) p count cs h =
        page_run-AreListening es _ _ _ (mounted-AreListening w p count cs h)
    page_run-AreListening (unmounts k ∷ es) p count cs h =
        page_run-AreListening es _ _ _ (unmounted-AreListening k p count cs h)
    page_run-AreListening (opens ∷ es) p count cs h =
        page_run-AreListening es _ _ _ (same_handlers-AreListening p _ count cs refl h)
    page_run-AreListening (closes ∷ es) p count cs h =
        page_run-AreListening es _ _ _
          (same_handlers-AreListening p _ count cs (handle_close-handlers p.client) h)
    page_run-AreListening (fires ∷ es) p count cs h =
        page_run-AreListening es _ _ _ (same_handlers-AreListening p _ count cs refl h)

  states-all_requests :
      (p : Page Delay) (cs : List (ℕ × Watcher))
      → All (λ c. get_elem? p.made c.0 ≡ some c.1) cs
      → all_requests p.made (map (λ c. suc c.0) cs) ≡ states_of cs
  states-all_requests p [] h = refl
  states-all_requests p (c ∷ cs) (e, h) =
      rw e (ap (λ l. asked_by c.1 ∷ l) (states-all_requests p cs h))

  all_sent-emit :
      (stringify : WsRequest → String) (c : WsClient Delay) (socket : ℕ) (rs : List WsRequest)
      → c.ws ≡ some socket
      → all_sent (map (λ r. emit (λ s. true) (stringify r) c) rs)
        ≡ map (λ r. (socket, stringify r)) rs
  unfolding emit
  all_sent-emit stringify c socket [] e = refl
  all_sent-emit stringify c socket (r ∷ rs) e =
      rw e (ap (λ l. (socket, stringify r) ∷ l) (all_sent-emit stringify c socket rs e))

  -- However cards and forms were mounted and unmounted and the connection was lost and found again, when the socket opens
  -- the client asks on it for the four feeds and then, for every card and every form for a bet that is mounted, for
  -- the state of its market in the way in which that component asks, and for nothing else.
  pub asked_by_open-map :
      (backoff : Options → ℕ → Delay) (stringify : WsRequest → String) (opts : WsClientOptions)
      (es : List PageEvent) (socket : ℕ)
      → (page_run backoff es (first_page opts)).client.ws ≡ some socket
      → asked_by_open stringify (page_run backoff es (first_page opts))
        ≡ map (λ r. (socket, stringify r)) (subscriptions ++ states_of (on_page es 0 []))
  unfolding asked_by_open handle_open first_page new_client connect on_connect add contains
  asked_by_open-map backoff stringify opts es socket e =
      let p = page_run backoff es (first_page opts) in
      let (count, h) =
        page_run-AreListening backoff es (first_page opts) 0 []
          (record { count_eq = refl; handlers_eq = refl; markets_eq = tt }) in
      let cs = on_page es 0 [] in
      let asked =
        ap (all_requests p.made) h.handlers_eq
        ∙ ap (λ l. subscriptions ++ l) (states-all_requests p cs h.markets_eq) in
      ap (λ rs. all_sent (map (λ r. emit (λ s. true) (stringify r) p.client) rs)) asked
      ∙ all_sent-emit stringify p.client socket (subscriptions ++ states_of cs) e
