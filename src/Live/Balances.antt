-- ===== src/Live/Balances.antt =====
-- The balance updates of frontend/seer/src/app/WsProvider.tsx.
use seer.Common.{
  ◌≡◌, ◌⊎◌, inl, inr, refl, Option, some, List, [], ◌∷◌, arith, All, Bool-cases, leb→le, leb-false,
}
use seer.Common.Int.{leb_ℤ, ◌≤ℤ◌}
use seer.Messages.{BalanceUpdate}
use seer.Live.{on_balance}

module _ {D : Type 0} where
  abbrev pub run_balance :
      List (BalanceUpdate D) → Option (BalanceUpdate D) → Option (BalanceUpdate D)
  run_balance [] b = b
  run_balance (u ∷ us) b = run_balance us (on_balance u b)

  -- One of `us`.
  abbrev pub OneOf : BalanceUpdate D → List (BalanceUpdate D) → Type 0
  OneOf b [] = ⊥
  OneOf b (u ∷ us) = (b ≡ u) ⊎ OneOf b us

  -- The balance b' is b or one of the updates, and none of these is newer.
  pub record IsLatest (us : List (BalanceUpdate D)) (b b' : BalanceUpdate D) : Type 0 where
    pub source : (b' ≡ b) ⊎ OneOf b' us
    pub grown : b.version ≤ℤ b'.version
    pub newest : All (λ (u : BalanceUpdate D). u.version ≤ℤ b'.version) us

  -- A cached balance, after any updates in any order, is the newest of it and them.
  pub run_balance-IsLatest :
      (us : List (BalanceUpdate D)) (b : BalanceUpdate D)
      → (b' : BalanceUpdate D) × (run_balance us (some b) ≡ some b') × IsLatest us b b'
  unfolding on_balance
  run_balance-IsLatest [] b =
      (b, refl, record { source = inl refl; grown = omega arith; newest = tt })
  run_balance-IsLatest (u ∷ us) b = elim (Bool-cases (leb_ℤ u.version b.version)) [
    | inl stale ↦
        let (b', e, h) = run_balance-IsLatest us b in
        (
          b',
          rw stale e,
          record {
            source = elim h.source [ inl s ↦ inl s | inr s ↦ inr (inr s) ];
            grown = h.grown;
            newest = (omega (arith, h.grown, leb→le _ _ stale), h.newest);
          },
        )
    | inr newer ↦
        let (b', e, h) = run_balance-IsLatest us u in
        (
          b',
          rw newer e,
          record {
            source = elim h.source [ inl s ↦ inr (inl s) | inr s ↦ inr (inr s) ];
            grown = omega (arith, h.grown, leb-false _ _ newer);
            newest = (h.grown, h.newest);
          },
        )
  ]
