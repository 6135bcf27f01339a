-- ===== src/Finance/Night.antt =====
-- night_overlap_seconds of backend/app/modules/finance/service.py. Python compares and subtracts
-- two datetimes of one tzinfo by their wall clocks, so the loop runs on local wall-clock
-- microseconds; the conversion `astimezone` is done by the caller.
pub mod Bounds
use parking_system.Common.{
  ℕ, zero, suc, ◌+◌, ◌-◌, ◌*◌, ◌/◌, min, max, Bool, ltb, leb, if◌then◌else◌,
}

abbrev pub second : ℕ
second = 1000000

abbrev pub hour : ℕ
hour = 3600000000

abbrev pub day : ℕ
day = 86400000000

-- `_NIGHT_MAX_DAYS`
abbrev pub night_max_days : ℕ
night_max_days = 3660

-- `t.replace(hour=h, minute=0, second=0, microsecond=0)`
unfoldable pub at_hour : ℕ → ℕ → ℕ
at_hour t h = t / day * day + h * hour

unfoldable pub window_end : ℕ → ℕ → ℕ → ℕ
unfolding at_hour
window_end cursor night_start_hour night_end_hour =
    if leb night_start_hour night_end_hour
    then at_hour cursor night_end_hour
    else at_hour (cursor + day) night_end_hour

-- The whole seconds of [a, b).
unfoldable pub seconds_between : ℕ → ℕ → ℕ
seconds_between a b = if ltb a b then (b - a) / second else 0

-- What one round of the loop adds.
unfoldable pub night_of_day : ℕ → ℕ → ℕ → ℕ → ℕ → ℕ
night_of_day start end night_start_hour night_end_hour cursor =
    seconds_between (max (at_hour cursor night_start_hour) start)
      (min (window_end cursor night_start_hour night_end_hour) end)

-- The `while`: the first argument is what is left of `_NIGHT_MAX_DAYS`.
unfoldable pub night_loop : ℕ → ℕ → ℕ → ℕ → ℕ → ℕ → ℕ → ℕ
night_loop zero start end night_start_hour night_end_hour cursor total = total
night_loop (suc days) start end night_start_hour night_end_hour cursor total =
    let rest =
      night_loop days start end night_start_hour night_end_hour (cursor + day)
        (total + night_of_day start end night_start_hour night_end_hour cursor) in
    if ltb cursor end then rest else total

unfoldable pub night_overlap_seconds : ℕ → ℕ → ℕ → ℕ → ℕ
unfolding night_loop night_of_day seconds_between window_end at_hour
night_overlap_seconds start duration_seconds night_start_hour night_end_hour =
    if leb duration_seconds 0
    then 0
    else night_loop night_max_days start (start + duration_seconds * second) night_start_hour
        night_end_hour (start / hour * hour - day) 0
