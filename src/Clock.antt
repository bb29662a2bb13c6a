-- ===== src/Clock.antt =====
-- frontend/seer/src/lib/utils/date.ts and lib/markets.ts: what depends on the time of day, which is the
-- argument `now`, in milliseconds.
pub mod Laws
pub mod Relative
mod Tests
use seer.Common.{
  ℕ, Bool, true, false, not, ◌&&◌, ◌||◌, Option, none, some, List, [], ◌∷◌, if◌then◌else◌,
}
use seer.Common.Int.{ℤ, pos, ◌-ℤ◌, leb_ℤ, ltb_ℤ, eqb_ℤ, floor_div}
use seer.Definitions.{MarketView, MarketStatus, active, resolved, pending, paused}

pub data TimeUnit : Type 0 where
  year month day hour minute second : TimeUnit

-- The texts of `timeSince`: "now", or a count, a unit, and whether an s follows it.
pub data Since : Type 0 where
  just_now : Since
  ago : ℤ → TimeUnit → Bool → Since

abbrev pub units : List (ℕ × TimeUnit)
units = (31536000, year) ∷ (2592000, month) ∷ (86400, day) ∷ (3600, hour) ∷ (60, minute) ∷ []

abbrev pub counted : ℤ → TimeUnit → Since
counted count unit = ago count unit (not (eqb_ℤ count (pos 1)))

unfoldable pub in_units : ℤ → List (ℕ × TimeUnit) → Since
in_units seconds [] = counted seconds second
in_units seconds ((limit, unit) ∷ us) =
    let rest = in_units seconds us in
    if leb_ℤ (pos 1) (floor_div seconds limit) then counted (floor_div seconds limit) unit else rest

unfoldable pub since_seconds : ℤ → Since
since_seconds seconds = if eqb_ℤ seconds (pos 0) then just_now else in_units seconds units

unfoldable pub time_since : (now date : ℤ) → Since
time_since now date = since_seconds (floor_div (now -ℤ date) 1000)

abbrev pub is_active : MarketStatus → Bool
is_active active = true
is_active _ = false

abbrev pub is_pending : MarketStatus → Bool
is_pending pending = true
is_pending _ = false

-- `!closeTime || closeTime > now`, and `closeTime ? closeTime <= now : false`
abbrev pub is_open : ℤ → Option ℤ → Bool
is_open now none = true
is_open now (some close) = ltb_ℤ now close

abbrev pub is_closed : ℤ → Option ℤ → Bool
is_closed now none = false
is_closed now (some close) = leb_ℤ close now

module _ {D : Type 0} where
  unfoldable pub is_market_active : ℤ → MarketView D → Bool
  is_market_active now market = is_active market.status && is_open now market.close_time

  unfoldable pub is_market_pending : ℤ → MarketView D → Bool
  is_market_pending now market = is_pending market.status || is_closed now market.close_time
