-- ===== src/Clock/Relative.antt =====
-- `formatDateTime` of frontend/seer/src/lib/utils/date.ts: the count and the unit that are handed to
-- Intl.RelativeTimeFormat. The formats of dates are the language's.
use seer.Common.{
  ℕ, suc, ◌*◌, ◌≤◌, ◌<◌, ltb, if◌then◌else◌, arith, Bool-cases, inl, inr, ltb→lt, ltb-false,
}
use seer.Common.Int.{ℤ, pos, negsuc, ◌-ℤ◌, ◌+ℤ◌, scaled, floor_div, ◌≤ℤ◌}
use seer.Clock.{TimeUnit, year, month, day, hour, minute, second}

-- `Math.round (a / d)`: a half is rounded up.
abbrev pub round_div : ℤ → ℕ → ℤ
round_div a d = floor_div (scaled a 2 +ℤ pos d) (2 * d)

-- `Math.abs`
abbrev pub abs : ℤ → ℕ
abs (pos m) = m
abs (negsuc m) = suc m

pub record RelativeTime : Type 0 where
  pub count : ℤ
  pub unit : TimeUnit

abbrev pub relative : ℤ → TimeUnit → RelativeTime
relative count unit = record { count = count; unit = unit }

unfoldable pub relative_time : ℤ → RelativeTime
relative_time diff_ms =
    let diff_min = round_div diff_ms 60000 in
    let diff_hours = round_div diff_ms 3600000 in
    let diff_days = round_div diff_ms 86400000 in
    let diff_months = round_div diff_ms 2592000000 in
    if ltb (abs diff_min) 60
    then relative diff_min minute
    else if ltb (abs diff_hours) 24
    then relative diff_hours hour
    else if ltb (abs diff_days) 30
    then relative diff_days day
    else relative diff_months month

abbrev pub format_date_time : (date now : ℤ) → RelativeTime
format_date_time date now = relative_time (date -ℤ now)

-- The milliseconds of a unit.
abbrev pub length_of : TimeUnit → ℕ
length_of year = 31536000000
length_of month = 2592000000
length_of day = 86400000
length_of hour = 3600000
length_of minute = 60000
length_of second = 1000

-- How far a count of units is from the difference, doubled.
abbrev pub IsNear : ℤ → ℤ → ℕ → Type 0
IsNear diff count size =
    (scaled diff 2 ≤ℤ scaled count (2 * size) +ℤ pos size)
    × (scaled count (2 * size) ≤ℤ scaled diff 2 +ℤ pos size)

-- Fewer than sixty minutes; else from one to twenty-three hours; to twenty-nine days; or one month at least.
abbrev pub IsWithin : TimeUnit → ℕ → Type 0
IsWithin minute n = n < 60
IsWithin hour n = (1 ≤ n) × (n < 24)
IsWithin day n = (1 ≤ n) × (n < 30)
IsWithin month n = 1 ≤ n
IsWithin _ n = ⊥

pub record IsReadable (diff : ℤ) (r : RelativeTime) : Type 0 where
  pub near : IsNear diff r.count (length_of r.unit)
  pub within : IsWithin r.unit (abs r.count)

round_minutes : (diff : ℤ) → IsNear diff (round_div diff 60000) 60000
unfolding ◌+ℤ◌
round_minutes (pos m) = (ground arith, ground arith)
round_minutes (negsuc m) = (ground arith, ground arith)

round_hours : (diff : ℤ) → IsNear diff (round_div diff 3600000) 3600000
unfolding ◌+ℤ◌
round_hours (pos m) = (ground arith, ground arith)
round_hours (negsuc m) = (ground arith, ground arith)

round_days : (diff : ℤ) → IsNear diff (round_div diff 86400000) 86400000
unfolding ◌+ℤ◌
round_days (pos m) = (ground arith, ground arith)
round_days (negsuc m) = (ground arith, ground arith)

round_months : (diff : ℤ) → IsNear diff (round_div diff 2592000000) 2592000000
unfolding ◌+ℤ◌
round_months (pos m) = (ground arith, ground arith)
round_months (negsuc m) = (ground arith, ground arith)

one_hour : (diff : ℤ) → 60 ≤ abs (round_div diff 60000) → 1 ≤ abs (round_div diff 3600000)
unfolding ◌+ℤ◌
one_hour (pos m) h = ground arith
one_hour (negsuc m) h = ground arith

one_day : (diff : ℤ) → 24 ≤ abs (round_div diff 3600000) → 1 ≤ abs (round_div diff 86400000)
unfolding ◌+ℤ◌
one_day (pos m) h = ground arith
one_day (negsuc m) h = ground arith

one_month : (diff : ℤ) → 30 ≤ abs (round_div diff 86400000) → 1 ≤ abs (round_div diff 2592000000)
unfolding ◌+ℤ◌
one_month (pos m) h = ground arith
one_month (negsuc m) h = ground arith

-- The text says a number of minutes, hours, days or months that is at most half a unit from the difference: fewer than
-- sixty minutes, or from one to twenty-three hours, from one to twenty-nine days, or one month at least.
pub relative_time-IsReadable : (diff : ℤ) → IsReadable diff (relative_time diff)
unfolding relative_time
relative_time-IsReadable diff = elim (Bool-cases (ltb (abs (round_div diff 60000)) 60)) [
  | inl minutes ↦ rw minutes (record { near = round_minutes diff; within = ltb→lt _ _ minutes })
  | inr longer ↦ elim (Bool-cases (ltb (abs (round_div diff 3600000)) 24)) [
    | inl hours ↦
        rw (longer, hours)
          (record {
            near = round_hours diff;
            within = (one_hour diff (ltb-false _ _ longer), ltb→lt _ _ hours);
          })
    | inr longer' ↦ elim (Bool-cases (ltb (abs (round_div diff 86400000)) 30)) [
      | inl days ↦
          rw (longer, longer', days)
            (record {
              near = round_days diff;
              within = (one_day diff (ltb-false _ _ longer'), ltb→lt _ _ days);
            })
      | inr longest ↦
          rw (longer, longer', longest)
            (record { near = round_months diff; within = one_month diff (ltb-false _ _ longest) })
    ]
  ]
]
