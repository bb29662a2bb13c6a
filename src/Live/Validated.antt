-- ===== src/Live/Validated.antt =====
-- frontend/seer/src/lib/definitions.ts: the transform of MarketViewSchema, and what holds of a market from there on, through
-- the updates of frontend/seer/src/app/WsProvider.tsx.
use mathlib.Core.Nat.{ℕ as LibraryNat, zero as library_zero, suc as library_suc}
use mathlib.Core.List.{length as library_length, Perm}
use mathlib.Core.List.Perm
use seer.Common.{
  ℕ, suc, ◌==◌, ◌≡◌, ◌≢◌, refl, sym, ap, ◌∙◌, subst, Bool, true, some, List, [], ◌∷◌, map, length,
  length-map, inl, inr, arith,
}
use seer.Common.Int.{ℤ}
use seer.Common.Result.{Result, ok}
use seer.Definitions.{Outcome, MarketView}
use seer.Messages.{MarketUpdate}
use seer.Numbers.{Numbers}
use seer.Lslmsr.Prices.{prices_for_market}
use seer.Live.{on_known_market, on_market_update}
use seer.Lslmsr.KeptOutcomes.{identity, prices_for_market-perm}
use seer.Live.Updates.{held, after_update, on_known_market_lem}
use seer.Live.Versions as Versions
use seer.BetForms.{has_choices}

-- The library's numbers, in which it measures lists.
abbrev native : LibraryNat → ℕ
native library_zero = 0
native (library_suc n) = suc (native n)

native-length {ℓ} : {A : Type ℓ} (l : List A) → native (library_length l) ≡ length l
native-length [] = refl
native-length (x ∷ l) = ap suc (native-length l)

length-Perm {ℓ} : {A : Type ℓ} {l l' : List A} → Perm l l' → length l ≡ length l'
length-Perm {l} {l'} p = sym (native-length l) ∙ ap native (Perm.length-eq p) ∙ native-length l'

module _ {D : Type 0} where
  -- A market has outcomes, and is binary exactly if they are two.
  pub record IsWellFormed (m : MarketView D) : Type 0 where
    pub binary_eq : m.is_binary ≡ (length m.outcomes == 2)
    pub outcomes_ne : m.outcomes ≢ []

module _ (N : Numbers) where
  open N use {F, D}

  -- The transform of MarketViewSchema.
  unfoldable pub transformed : MarketView D → Result (MarketView D)
  transformed market =
      prices_for_market N (record market { is_binary = length market.outcomes == 2 })

  length-ne-nil : (l l' : List (Outcome D)) → length l ≡ length l' → l' ≢ [] → l ≢ []
  length-ne-nil [] [] e ne = ne
  length-ne-nil [] (x ∷ l') e ne = absurd (omega arith)
  length-ne-nil (x ∷ l) l' e ne = λ h. cc

  -- Outcomes that are the same as others in something and some order are as many.
  length-map-Perm :
      {A : Type 0} (f g : Outcome D → A) (l l' : List (Outcome D))
      → Perm (map f l) (map g l')
      → length l ≡ length l'
  length-map-Perm f g l l' p = sym (length-map f l) ∙ length-Perm p ∙ length-map g l'

  as_many :
      (m m' : MarketView D)
      → m'.is_binary ≡ m.is_binary
      → length m'.outcomes ≡ length m.outcomes
      → IsWellFormed m
      → IsWellFormed m'
  as_many m m' same len h = record {
    binary_eq = same ∙ h.binary_eq ∙ ap (λ n. n == 2) (sym len);
    outcomes_ne = length-ne-nil m'.outcomes m.outcomes len h.outcomes_ne;
  }

  transformed-IsWellFormed :
      (market : MarketView D)
      → market.outcomes ≢ []
      → (m : MarketView D) × (transformed market ≡ ok m) × IsWellFormed m
  unfolding transformed
  transformed-IsWellFormed market ne =
      let asked = record market { is_binary = length market.outcomes == 2 } in
      let (m, e, kept, perm) = prices_for_market-perm N asked ne in
      (
        m,
        e,
        as_many asked m (ap (λ (k : MarketView D). k.is_binary) kept)
            (length-map-Perm (identity N) (identity N) m.outcomes market.outcomes perm)
            (record { binary_eq = refl; outcomes_ne = ne }),
      )

  update-IsWellFormed :
      (now : ℤ) (u : MarketUpdate D) (m : MarketView D)
      → IsWellFormed m
      → (m' : MarketView D) × (on_known_market N now u m ≡ ok m') × IsWellFormed m'
  update-IsWellFormed now u m h =
      let (m', e, branch) = on_known_market_lem N now u m h.outcomes_ne in
      (
        m',
        e,
        elim branch [
          | inl (stale, same) ↦ subst IsWellFormed (sym same) h
          | inr (newer, updated) ↦
              as_many m m' (ap (λ (k : MarketView D). k.is_binary) updated.kept)
                (length-map-Perm (held N) (after_update N u) m'.outcomes m.outcomes
                  updated.outcomes_perm)
                h
        ],
      )

  updates-IsWellFormed :
      (us : List (ℤ × MarketUpdate D)) (m : MarketView D)
      → IsWellFormed m
      → (m' : MarketView D) × (Versions.run N us (some m) ≡ ok (some m')) × IsWellFormed m'
  unfolding on_market_update
  updates-IsWellFormed [] m h = (m, refl, h)
  updates-IsWellFormed ((now, u) ∷ us) m h =
      let (m₁, e, h₁) = update-IsWellFormed now u m h in
      let (m₂, e', h₂) = updates-IsWellFormed us m₁ h₁ in (m₂, rw e e', h₂)

  -- A market whose outcomes the server sends is, once it is validated and after any updates, a market with outcomes that
  -- is binary exactly if they are two; its form for a bet then finds the outcomes that it offers.
  pub run-IsWellFormed :
      (market : MarketView D) (us : List (ℤ × MarketUpdate D))
      → market.outcomes ≢ []
      → (m m' : MarketView D) × (transformed market ≡ ok m)
        × (Versions.run N us (some m) ≡ ok (some m'))
        × IsWellFormed m'
        × (has_choices m'.is_binary m'.outcomes ≡ true)
  run-IsWellFormed market us ne =
      let (m, e, h) = transformed-IsWellFormed market ne in
      let (m', e', h') = updates-IsWellFormed us m h in
      (m, m', e, e', h', choices m'.outcomes m'.is_binary h'.binary_eq h'.outcomes_ne)
    where
      choices :
          (os : List (Outcome D)) (binary : Bool)
          → binary ≡ (length os == 2)
          → os ≢ []
          → has_choices binary os ≡ true
      choices [] binary e ne = absurd (ne refl)
      choices (o ∷ []) binary e ne = rw e refl
      choices (o ∷ o' ∷ os) binary e ne = refl
