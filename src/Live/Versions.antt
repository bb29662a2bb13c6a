-- ===== src/Live/Versions.antt =====
-- The market updates of frontend/seer/src/app/WsProvider.tsx in whatever order they arrive.
use mathlib.Core.List.{Perm}
use mathlib.Core.List.Perm
use seer.Common.{
  ◌≡◌, ◌≢◌, inl, inr, refl, sym, subst, true, Option, some, List, [], ◌∷◌, arith, All, leb→le,
  leb-false, map,
}
use seer.Common.Int.{ℤ, leb_ℤ, ◌≤ℤ◌}
use seer.Common.Result.{Result, ok, ◌>>=◌}
use seer.Definitions.{MarketView}
use seer.Messages.{MarketUpdate}
use seer.Numbers.{Numbers}
use seer.Live.{on_known_market, on_market_update}
use seer.Live.Updates.{on_known_market_lem, map-ne-nil, held, after_update}

module _ (N : Numbers) where
  open N use {D}

  -- The updates, each with the time at which it arrives.
  abbrev pub run :
      List (ℤ × MarketUpdate D) → Option (MarketView D) → Result (Option (MarketView D))
  run [] market = ok market
  run ((now, u) ∷ us) market = on_market_update N now u market >>= run us

  abbrev pub version_of : ℤ × MarketUpdate D → ℤ
  version_of (now, u) = u.market_version

  -- No update of `us`, and not the market m, is newer than m', which has outcomes.
  pub record IsNewest (us : List (ℤ × MarketUpdate D)) (m m' : MarketView D) : Type 0 where
    pub grown : m.version ≤ℤ m'.version
    pub newest : All (λ t. version_of t ≤ℤ m'.version) us
    pub outcomes_ne : m'.outcomes ≢ []

  pub step-IsNewest :
      (now : ℤ) (u : MarketUpdate D) (m : MarketView D)
      → m.outcomes ≢ []
      → (m' : MarketView D) × (on_market_update N now u (some m) ≡ ok (some m'))
        × IsNewest ((now, u) ∷ []) m m'
  unfolding on_market_update
  step-IsNewest now u m ne =
      let (m', e, branch) = on_known_market_lem N now u m ne in
      (
        m',
        rw e refl,
        elim branch [
          | inl (stale, same) ↦
              subst (IsNewest ((now, u) ∷ []) m) (sym same)
                (record { grown = omega arith; newest = (leb→le _ _ stale, tt); outcomes_ne = ne })
          | inr (newer, h) ↦ record {
            grown =
                subst (λ v. m.version ≤ℤ v) (sym h.version_eq) (omega (arith, leb-false _ _ newer));
            newest = (subst (λ v. u.market_version ≤ℤ v) (sym h.version_eq) (omega arith), tt);
            outcomes_ne = λ none_left. map-ne-nil N (after_update N u) m.outcomes ne (
                sym (
                  Perm.nil-eq (
                    subst (λ os. Perm (map (held N) os) (map (after_update N u) m.outcomes))
                      none_left h.outcomes_perm)));
          }
        ],
      )

  newest_mono :
      (a b : ℤ) (us : List (ℤ × MarketUpdate D))
      → a ≤ℤ b
      → All (λ t. version_of t ≤ℤ a) us
      → All (λ t. version_of t ≤ℤ b) us
  newest_mono a b [] le h = tt
  newest_mono a b (u ∷ us) le (h, hs) = (omega arith, newest_mono a b us le hs)

  -- On a market with outcomes, updates in any order and at any times leave a market with outcomes that
  -- is no older than any of them or than the market before.
  pub run-IsNewest :
      (us : List (ℤ × MarketUpdate D)) (m : MarketView D)
      → m.outcomes ≢ []
      → (m' : MarketView D) × (run us (some m) ≡ ok (some m')) × IsNewest us m m'
  run-IsNewest [] m ne = (m, refl, record { grown = omega arith; newest = tt; outcomes_ne = ne })
  run-IsNewest ((now, u) ∷ us) m ne =
      let (m₁, e, first) = step-IsNewest now u m ne in
      let (m₂, e', rest) = run-IsNewest us m₁ first.outcomes_ne in
      (
        m₂,
        rw e e',
        record {
          grown = omega (arith, first.grown, rest.grown);
          newest = (
            (newest_mono m₁.version m₂.version ((now, u) ∷ []) rest.grown first.newest).0,
            rest.newest,
          );
          outcomes_ne = rest.outcomes_ne;
        },
      )

  stale_leb : (a b : ℤ) → a ≤ℤ b → leb_ℤ a b ≡ true
  stale_leb a b le = ground arith

  run-stale :
      (us : List (ℤ × MarketUpdate D)) (m : MarketView D)
      → All (λ t. version_of t ≤ℤ m.version) us
      → run us (some m) ≡ ok (some m)
  unfolding on_market_update on_known_market
  run-stale [] m h = refl
  run-stale ((now, u) ∷ us) m (h, hs) =
      rw (stale_leb u.market_version m.version h) (run-stale us m hs)

  -- On a market with outcomes, the same updates once more, in the same order, change nothing.
  pub run-replay :
      (us : List (ℤ × MarketUpdate D)) (m : MarketView D)
      → m.outcomes ≢ []
      → run us (some m) >>= run us ≡ run us (some m)
  run-replay us m ne = let (m', e, h) = run-IsNewest us m ne in rw e (run-stale us m' h.newest)
