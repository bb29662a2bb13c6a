-- ===== src/App/Refines.antt =====
-- frontend/seer/src/app/WsProvider.tsx: a run of the client's state splits into the runs of its parts.
use seer.Common.{
  ◌≡◌, ◌≢◌, refl, sym, ◌∙◌, ap, subst, false, String, Option, none, some, List, [], ◌∷◌, lookup,
  lookup-insert, str_eq, if◌then◌else◌, Bool-cases, Option-cases, inl, inr, eq_iff, eq_refl,
}
use mathlib.Core.Option.{some-injective}
use seer.Common.Int.{ℤ, leb_ℤ}
use seer.Common.Result.{ok}
use seer.Definitions.{MarketView}
use seer.Messages.{BalanceUpdate, MarketUpdate}
use seer.Numbers.{Numbers}
use seer.Live.{on_market_update, on_balance}
use seer.Live.Versions as Versions
use seer.Live.Balances.{run_balance}
use seer.Stores.Bets as Bets
use seer.Stores.Chats as Chats
use seer.Stores.Panels.{update_online_count}
use seer.App.{
  Event, markets_update, balance, bets_latest, bets_high, chat, online, AppState, put_back,
  on_markets_update, step, run,
}
use seer.App.Parts.{
  updates_of, balances_of, bets_of, messages_of, last_online, HaveOutcomes, IsRunOf,
}

module _ {ℓ} {A : Type ℓ} where
  -- What is cached after an updater that keeps what is there has run.
  pub lookup-put_back :
      (key other : String) (value : Option A) (entries : List (String × A))
      → (value ≡ none → lookup key entries ≡ none)
      → lookup other (put_back key value entries)
        ≡ (if str_eq key other then value else lookup other entries)
  unfolding put_back
  lookup-put_back key other (some v) entries kept = lookup-insert key other v entries
  lookup-put_back key other none entries kept = elim (Bool-cases (str_eq key other)) [
    | inl same ↦ rw same (subst (λ k. lookup k entries ≡ none) ((eq_iff _ _).0 same) (kept refl))
    | inr apart ↦ rw apart refl
  ]

on_balance-none :
    {D : Type 0} (u : BalanceUpdate D) (b : Option (BalanceUpdate D))
    → on_balance u b ≡ none
    → b ≡ none
unfolding on_balance
on_balance-none u none e = refl
on_balance-none u (some old) e = elim (Bool-cases (leb_ℤ u.version old.version)) [
  | inl stale ↦ let e' = (rw (stale) at e) in cc
  | inr newer ↦ let e' = (rw (newer) at e) in cc
]

module _ (N : Numbers) where
  open N use {D}

  -- The cache after an update of a market, and what it does to every market.
  pub record IsUpdated (now : ℤ) (u : MarketUpdate D) (s s' : AppState D) : Type 0 where
    pub done : on_markets_update N now u s ≡ ok s'
    pub kept : HaveOutcomes s'
    pub own :
        on_market_update N now u (lookup u.market_id s.markets) ≡ ok (lookup u.market_id s'.markets)
    pub others :
        (id : String) → str_eq u.market_id id ≡ false → lookup id s'.markets ≡ lookup id s.markets
    pub rest : s' ≡ record s { markets = s'.markets }

  put_back-IsUpdated :
      (now : ℤ) (u : MarketUpdate D) (s : AppState D) (market : Option (MarketView D))
      → HaveOutcomes s
      → on_market_update N now u (lookup u.market_id s.markets) ≡ ok market
      → (market ≡ none → lookup u.market_id s.markets ≡ none)
      → ((m : MarketView D) → market ≡ some m → m.outcomes ≢ [])
      → IsUpdated now u s (record s { markets = put_back u.market_id market s.markets })
  put_back-IsUpdated now u s market h e missing ne =
      let at' = λ (id : String). lookup-put_back u.market_id id market s.markets missing in
      record {
        done = rw e refl;
        kept = λ id m found. elim (Bool-cases (str_eq u.market_id id)) [
          | inl same ↦ ne m (rw (same) at (sym (at' id) ∙ found))
          | inr apart ↦ h id m (rw (apart) at (sym (at' id) ∙ found))
        ];
        own = e ∙ ap ok (sym (rw (eq_refl u.market_id) at (at' u.market_id)));
        others = λ id apart. rw (apart) at (at' id);
        rest = refl;
      }

  update-IsUpdated :
      (now : ℤ) (u : MarketUpdate D) (s : AppState D)
      → HaveOutcomes s
      → (s' : AppState D) × IsUpdated now u s s'
  unfolding on_market_update
  update-IsUpdated now u s h = elim (Option-cases (lookup u.market_id s.markets)) [
    | inl missing ↦
        (_, put_back-IsUpdated now u s none h (rw missing refl) (λ e. missing) (λ m e. cc))
    | inr (m, found) ↦
        let (m', e, newest) = Versions.step-IsNewest N now u m (h u.market_id m found) in
        (
          _,
          put_back-IsUpdated now u s (some m') h (rw found e) (λ e. cc)
              (λ k e'.
                subst (λ (w : MarketView D). w.outcomes ≢ []) (some-injective _ _ e')
                  newest.outcomes_ne),
        )
  ]

  after_update :
      (now : ℤ) (u : MarketUpdate D) (es : List (Event D)) (s s₁ s₂ : AppState D)
      → IsUpdated now u s s₁
      → IsRunOf N es s₁ s₂
      → (id : String)
      → Versions.run N (updates_of id (markets_update now u ∷ es)) (lookup id s.markets)
        ≡ ok (lookup id s₂.markets)
  after_update now u es s s₁ s₂ first r id = elim (Bool-cases (str_eq u.market_id id)) [
    | inl same ↦
        let own =
          subst (λ k. on_market_update N now u (lookup k s.markets) ≡ ok (lookup k s₁.markets))
            ((eq_iff _ _).0 same) first.own in
        rw (same, own) (r.markets_eq id)
    | inr apart ↦ rw apart (
        ap (λ m. Versions.run N (updates_of id es) m) (sym (first.others id apart))
        ∙ r.markets_eq id)
  ]

  after_balance :
      (u : BalanceUpdate D) (es : List (Event D)) (s s' : AppState D)
      → ((c : String)
          → lookup c s'.balances
            ≡ run_balance (balances_of c es) (
                lookup c
                  (put_back u.currency (on_balance u (lookup u.currency s.balances)) s.balances)))
      → (c : String)
      → lookup c s'.balances ≡ run_balance (balances_of c (balance u ∷ es)) (lookup c s.balances)
  after_balance u es s s' later c =
      let updated = on_balance u (lookup u.currency s.balances) in
      let cached = lookup-put_back u.currency c updated s.balances (λ e. on_balance-none u _ e) in
      elim (Bool-cases (str_eq u.currency c)) [
        | inl same ↦
            let key = ap (λ k. on_balance u (lookup k s.balances)) ((eq_iff _ _).0 same) in
            rw same (later c ∙ ap (run_balance (balances_of c es)) (rw (same) at cached ∙ key))
        | inr apart ↦
            rw apart (later c ∙ ap (run_balance (balances_of c es)) (rw (apart) at cached))
      ]

  -- On a cache whose markets have outcomes, the messages that arrive leave nothing undone: each market is what its own
  -- updates, in their order, make of it, each balance what those of its currency do, the two lists of bets and the
  -- chats what their messages do, and the number of users is the last that was sent.
  pub run-IsRunOf :
      (es : List (Event D)) (s : AppState D)
      → HaveOutcomes s
      → (s' : AppState D) × (run N es s ≡ ok s') × HaveOutcomes s' × IsRunOf N es s s'
  unfolding step update_online_count
  run-IsRunOf [] s h = (
    s,
    refl,
    h,
    record {
      markets_eq = λ id. refl;
      balances_eq = λ c. refl;
      bets_eq = refl;
      chats_eq = refl;
      online_eq = refl;
    },
  )
  run-IsRunOf (markets_update now u ∷ es) s h =
      let (s₁, first) = update-IsUpdated now u s h in
      let (s₂, done, kept, r) = run-IsRunOf es s₁ first.kept in
      (
        s₂,
        rw first.done done,
        kept,
        record {
          markets_eq = λ id. after_update now u es s s₁ s₂ first r id;
          balances_eq = λ c.
              r.balances_eq c
              ∙ ap (λ (t : AppState D). run_balance (balances_of c es) (lookup c t.balances))
                  first.rest;
          bets_eq = r.bets_eq ∙ ap (λ (t : AppState D). Bets.run (bets_of es) t.bets) first.rest;
          chats_eq =
              r.chats_eq ∙ ap (λ (t : AppState D). Chats.run (messages_of es) t.chats) first.rest;
          online_eq =
              r.online_eq ∙ ap (λ (t : AppState D). last_online es t.online_users) first.rest;
        },
      )
  run-IsRunOf (balance u ∷ es) s h =
      let (s', done, kept, r) = run-IsRunOf es _ h in
      (
        s',
        done,
        kept,
        record {
          markets_eq = r.markets_eq;
          balances_eq = λ c. after_balance u es s s' r.balances_eq c;
          bets_eq = r.bets_eq;
          chats_eq = r.chats_eq;
          online_eq = r.online_eq;
        },
      )
  run-IsRunOf (bets_latest b ∷ es) s h =
      let (s', done, kept, r) = run-IsRunOf es _ h in
      (
        s',
        done,
        kept,
        record {
          markets_eq = r.markets_eq;
          balances_eq = r.balances_eq;
          bets_eq = r.bets_eq;
          chats_eq = r.chats_eq;
          online_eq = r.online_eq;
        },
      )
  run-IsRunOf (bets_high b ∷ es) s h =
      let (s', done, kept, r) = run-IsRunOf es _ h in
      (
        s',
        done,
        kept,
        record {
          markets_eq = r.markets_eq;
          balances_eq = r.balances_eq;
          bets_eq = r.bets_eq;
          chats_eq = r.chats_eq;
          online_eq = r.online_eq;
        },
      )
  run-IsRunOf (chat m ∷ es) s h =
      let (s', done, kept, r) = run-IsRunOf es _ h in
      (
        s',
        done,
        kept,
        record {
          markets_eq = r.markets_eq;
          balances_eq = r.balances_eq;
          bets_eq = r.bets_eq;
          chats_eq = r.chats_eq;
          online_eq = r.online_eq;
        },
      )
  run-IsRunOf (online u ∷ es) s h =
      let (s', done, kept, r) = run-IsRunOf es _ h in
      (
        s',
        done,
        kept,
        record {
          markets_eq = r.markets_eq;
          balances_eq = r.balances_eq;
          bets_eq = r.bets_eq;
          chats_eq = r.chats_eq;
          online_eq = r.online_eq;
        },
      )
