-- ===== src/Live/Tests.antt =====
-- The theorems on frontend/seer/src/app/WsProvider.tsx at a concrete market.
use seer.Common.{ℕ, ◌≡◌, some, [], ◌∷◌, List, true}
use seer.Common.Int.{ℤ, pos}
use seer.Common.Result.{ok, ◌>>=◌}
use seer.Definitions.{MarketView, PriceChartDataPoint}
use seer.Messages.{MarketUpdate, BalanceUpdate}
use seer.Samples.{thousandths, even_market}
use seer.Live.Versions.{run, IsNewest, run-IsNewest, run-replay}
use seer.BetForms.{has_choices}
use seer.Live.Validated.{transformed, IsWellFormed, run-IsWellFormed}

abbrev update : ℕ → ℕ → MarketUpdate ℕ
update version quantity = record {
  market_id = "m";
  market_version = pos version;
  total_volume = 5;
  outcomes = record { id = pos 7; quantity = quantity } ∷ [];
}

-- The second of these comes late.
abbrev updates : List (ℤ × MarketUpdate ℕ)
updates = (pos 60, update 5 14000) ∷ (pos 61, update 4 12000) ∷ (pos 62, update 6 13000) ∷ []

run-IsNewest_example :
    (m' : MarketView ℕ) × (run thousandths updates (some even_market) ≡ ok (some m'))
    × IsNewest thousandths updates even_market m'
run-IsNewest_example = run-IsNewest thousandths updates even_market (λ e. cc)

run-replay_example :
    run thousandths updates (some even_market) >>= run thousandths updates
    ≡ run thousandths updates (some even_market)
run-replay_example = run-replay thousandths updates even_market (λ e. cc)

abbrev points : List (PriceChartDataPoint ℕ)
points =
    record { date = pos 0; timestamp = pos 0; price = 500 }
    ∷ record { date = pos 300000; timestamp = pos 300000; price = 510 }
    ∷ []

abbrev balance : ℕ → ℕ → BalanceUpdate ℕ
balance version amount = record { currency = "USDT"; balance = amount; version = pos version }

run-IsWellFormed_example :
    (m m' : MarketView ℕ) × (transformed thousandths even_market ≡ ok m)
    × (run thousandths updates (some m) ≡ ok (some m'))
    × IsWellFormed m'
    × (has_choices m'.is_binary m'.outcomes ≡ true)
run-IsWellFormed_example = run-IsWellFormed thousandths even_market updates (λ e. cc)
