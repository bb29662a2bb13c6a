-- ===== src/Clock/Laws.antt =====
-- frontend/seer/src/lib/utils/date.ts and lib/markets.ts: what the texts and the tests mean.
use seer.Common.{
  ℕ, ◌+◌, ◌*◌, ◌/◌, ◌≤◌, ◌<◌, ◌≡◌, refl, false, not, ◌&&◌, ◌||◌, Option, none, some, ◌==◌, leb,
  arith, Bool-cases, inl, inr, leb→le, leb-false,
}
use seer.Common.Int.{ℤ, pos}
use seer.Definitions.{MarketView, MarketStatus, active, resolved, pending, paused}
use seer.Clock.{
  TimeUnit, year, month, day, hour, minute, second, Since, ago, in_units, since_seconds,
  is_market_active, is_market_pending, is_open, is_closed, is_active, is_pending,
}

-- The seconds of a unit, and those of the next larger one.
abbrev pub size : TimeUnit → ℕ
size year = 31536000
size month = 2592000
size day = 86400
size hour = 3600
size minute = 60
size second = 1

abbrev pub IsBelowNext : ℕ → TimeUnit → Type 0
IsBelowNext n year = Unit {0}
IsBelowNext n month = n < 31536000
IsBelowNext n day = n < 2592000
IsBelowNext n hour = n < 86400
IsBelowNext n minute = n < 3600
IsBelowNext n second = n < 60

-- A text for n seconds: a count that is not 0 of whole units, in the largest unit that n reaches, with an s
-- unless it is one.
pub record IsRough (n : ℕ) (text : Since) : Type 0 where
  pub count : ℕ
  pub unit : TimeUnit
  pub text_eq : text ≡ ago (pos count) unit (not (count == 1))
  pub count_le : 1 ≤ count
  pub lower : count * size unit ≤ n
  pub upper : n < (count + 1) * size unit
  pub largest : IsBelowNext n unit

rough :
    (unit : TimeUnit) (n count : ℕ)
    → 1 ≤ count
    → IsBelowNext n unit
    → count * size unit ≤ n
    → n < (count + 1) * size unit
    → IsRough n (ago (pos count) unit (not (count == 1)))
rough unit n count h b l u = record {
  count = count;
  unit = unit;
  text_eq = refl;
  count_le = h;
  lower = l;
  upper = u;
  largest = b;
}

IsRough-at :
    (unit : TimeUnit) (n : ℕ)
    → 1 ≤ n / size unit
    → IsBelowNext n unit
    → IsRough n (ago (pos (n / size unit)) unit (not (n / size unit == 1)))
IsRough-at year n h b = rough year n _ h b (omega arith) (omega arith)
IsRough-at month n h b = rough month n _ h b (omega arith) (omega arith)
IsRough-at day n h b = rough day n _ h b (omega arith) (omega arith)
IsRough-at hour n h b = rough hour n _ h b (omega arith) (omega arith)
IsRough-at minute n h b = rough minute n _ h b (omega arith) (omega arith)
IsRough-at second n h b = rough second n _ h b (omega arith) (omega arith)

nonzero_test : (n : ℕ) → 1 ≤ n → (n == 0) ≡ false
nonzero_test n h = ground arith

-- The text for any number of seconds but 0 is rough: it has a count that is not 0 of whole units, in the
-- largest unit that the seconds reach, with an s unless it is one.
pub since_seconds-IsRough : (n : ℕ) → 1 ≤ n → IsRough n (since_seconds (pos n))
unfolding since_seconds in_units
since_seconds-IsRough n h = elim (Bool-cases (leb 1 (n / 31536000 + 0))) [
  | inl e0 ↦ rw (nonzero_test n h, e0) (IsRough-at year n (omega (arith, leb→le _ _ e0)) tt)
  | inr e0 ↦ elim (Bool-cases (leb 1 (n / 2592000 + 0))) [
    | inl e1 ↦
        rw (nonzero_test n h, e0, e1)
          (IsRough-at month n (omega (arith, leb→le _ _ e1)) (omega (arith, leb-false _ _ e0)))
    | inr e1 ↦ elim (Bool-cases (leb 1 (n / 86400 + 0))) [
      | inl e2 ↦
          rw (nonzero_test n h, e0, e1, e2)
            (IsRough-at day n (omega (arith, leb→le _ _ e2)) (omega (arith, leb-false _ _ e1)))
      | inr e2 ↦ elim (Bool-cases (leb 1 (n / 3600 + 0))) [
        | inl e3 ↦
            rw (nonzero_test n h, e0, e1, e2, e3)
              (IsRough-at hour n (omega (arith, leb→le _ _ e3)) (omega (arith, leb-false _ _ e2)))
        | inr e3 ↦ elim (Bool-cases (leb 1 (n / 60 + 0))) [
          | inl e4 ↦
              rw (nonzero_test n h, e0, e1, e2, e3, e4)
                (IsRough-at minute n (omega (arith, leb→le _ _ e4))
                  (omega (arith, leb-false _ _ e3)))
          | inr e4 ↦
              rw (nonzero_test n h, e0, e1, e2, e3, e4)
                (rough second n n h (omega (arith, leb-false _ _ e4)) (omega arith) (omega arith))
        ]
      ]
    ]
  ]
]

active_lem :
    (now : ℤ) (s : MarketStatus) (c : Option ℤ)
    → (s ≡ active → (is_active s && is_open now c) ≡ not (is_pending s || is_closed now c))
      × (((is_active s && is_open now c) && (is_pending s || is_closed now c)) ≡ false)
active_lem now active none = ((λ e. refl), refl)
active_lem now active (some c) = ((λ e. ground arith), ground arith)
active_lem now resolved c = ((λ e. cc), refl)
active_lem now pending c = ((λ e. cc), refl)
active_lem now paused c = ((λ e. cc), refl)

-- A market with the status active counts as active at any time exactly if it does not count as pending; and no
-- market counts as both.
pub is_market_active_lem :
    {D : Type 0} (now : ℤ) (m : MarketView D)
    → (m.status ≡ active → is_market_active now m ≡ not (is_market_pending now m))
      × ((is_market_active now m && is_market_pending now m) ≡ false)
unfolding is_market_active is_market_pending
is_market_active_lem now m = active_lem now m.status m.close_time
