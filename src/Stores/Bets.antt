-- ===== src/Stores/Bets.antt =====
-- frontend/seer/src/lib/stores/bets.ts: the two lists of live bets.
use mathlib.Core.List.{reverse-cons}
use seer.Common.{
  ℕ, ◌+◌, ◌%◌, ◌≡◌, refl, List, [], ◌∷◌, ◌++◌, arith, length, take, reverse, append_assoc,
  append-nil, take-cons-take,
}
use seer.Messages.{BetUpdate}

pub record BetStore (D : Type 0) : Type 0 where
  pub latest_bets : List (BetUpdate D)
  pub latest_parity : ℕ
  pub high_bets : List (BetUpdate D)
  pub high_parity : ℕ

module _ {D : Type 0} where
  abbrev pub initial : BetStore D
  initial = record { latest_bets = []; latest_parity = 0; high_bets = []; high_parity = 0 }

  unfoldable pub add_latest_bet : BetUpdate D → BetStore D → BetStore D
  add_latest_bet bet s =
      let updated_bets = take 10 (bet ∷ s.latest_bets) in
      record s { latest_bets = updated_bets; latest_parity = (s.latest_parity + 1) % 2 }

  unfoldable pub add_high_bet : BetUpdate D → BetStore D → BetStore D
  add_high_bet bet s =
      let updated_bets = take 10 (bet ∷ s.high_bets) in
      record s { high_bets = updated_bets; high_parity = (s.high_parity + 1) % 2 }

-- The two socket events that reach the store.
pub data BetEvent (D : Type 0) : Type 0 where
  latest high : BetUpdate D → BetEvent D

module _ {D : Type 0} where
  abbrev pub handle : BetEvent D → BetStore D → BetStore D
  handle (latest b) s = add_latest_bet b s
  handle (high b) s = add_high_bet b s

  abbrev pub run : List (BetEvent D) → BetStore D → BetStore D
  run [] s = s
  run (e ∷ es) s = run es (handle e s)

  abbrev pub latests : List (BetEvent D) → List (BetUpdate D)
  latests [] = []
  latests (latest b ∷ es) = b ∷ latests es
  latests (high b ∷ es) = latests es

  abbrev pub highs : List (BetEvent D) → List (BetUpdate D)
  highs [] = []
  highs (latest b ∷ es) = highs es
  highs (high b ∷ es) = b ∷ highs es

  -- The store shows the ten newest of the bets `ls` and `hs`, which are newest first, and the parity
  -- of how many there were.
  pub record Shows (s : BetStore D) (ls hs : List (BetUpdate D)) : Type 0 where
    pub latest_eq : s.latest_bets ≡ take 10 ls
    pub high_eq : s.high_bets ≡ take 10 hs
    pub latest_count : s.latest_parity ≡ length ls % 2
    pub high_count : s.high_parity ≡ length hs % 2

  module _ (s : BetStore D) (ls hs : List (BetUpdate D)) (b : BetUpdate D) (h : Shows s ls hs) where
    add_latest_bet-Shows : Shows (add_latest_bet b s) (b ∷ ls) hs
    unfolding add_latest_bet
    add_latest_bet-Shows = record {
      latest_eq = rw h.latest_eq (take-cons-take 10 b ls);
      high_eq = h.high_eq;
      latest_count = omega (arith, h.latest_count);
      high_count = h.high_count;
    }

    add_high_bet-Shows : Shows (add_high_bet b s) ls (b ∷ hs)
    unfolding add_high_bet
    add_high_bet-Shows = record {
      latest_eq = h.latest_eq;
      high_eq = rw h.high_eq (take-cons-take 10 b hs);
      latest_count = h.latest_count;
      high_count = omega (arith, h.high_count);
    }

  run-Shows :
      (es : List (BetEvent D)) (s : BetStore D) (ls hs : List (BetUpdate D))
      → Shows s ls hs
      → Shows (run es s) (reverse (latests es) ++ ls) (reverse (highs es) ++ hs)
  run-Shows [] s ls hs h = h
  run-Shows (latest b ∷ es) s ls hs h =
      rw (reverse-cons b (latests es), append_assoc (reverse (latests es)) (b ∷ []) ls)
        (run-Shows es (add_latest_bet b s) (b ∷ ls) hs (add_latest_bet-Shows s ls hs b h))
  run-Shows (high b ∷ es) s ls hs h =
      rw (reverse-cons b (highs es), append_assoc (reverse (highs es)) (b ∷ []) hs)
        (run-Shows es (add_high_bet b s) ls (b ∷ hs) (add_high_bet-Shows s ls hs b h))

  -- After any sequence of bets on the two channels, each list holds the ten newest of its own channel,
  -- newest first, and each parity is that of the number of its channel's bets.
  pub run-Shows_newest :
      (es : List (BetEvent D)) → Shows (run es initial) (reverse (latests es)) (reverse (highs es))
  run-Shows_newest es =
      rw (append-nil (reverse (latests es)), append-nil (reverse (highs es))) at
        (run-Shows es initial [] []
          (record { latest_eq = refl; high_eq = refl; latest_count = refl; high_count = refl }))
