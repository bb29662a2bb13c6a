-- ===== src/Clock/Tests.antt =====
-- The theorems on frontend/seer/src/lib/utils/date.ts and lib/markets.ts at concrete times.
use seer.Common.{◌≡◌, refl, true}
use seer.Common.Int.{pos, negsuc, ◌-ℤ◌}
use seer.Clock.{time_since, since_seconds, in_units, ago, hour, second}

-- Two hours and a half ago, and five seconds from now.
past : time_since (pos 9000000) (pos 0) ≡ ago (pos 2) hour true
unfolding time_since since_seconds in_units ◌-ℤ◌
past = refl

future : time_since (pos 0) (pos 5000) ≡ ago (negsuc 4) second true
unfolding time_since since_seconds in_units ◌-ℤ◌
future = refl
