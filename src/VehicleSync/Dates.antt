-- ===== src/VehicleSync/Dates.antt =====
-- The dates of backend/app/modules/vehicle_sync/service.py: `parse_any_date` and
-- `_jalali_to_gregorian`, and what they use of Python's datetime.
pub mod Days
pub mod Jalali
use parking_system.Common.{
  ℕ, ◌+◌, ◌-◌, ◌*◌, ◌/◌, ◌%◌, Bool, true, false, not, ◌&&◌, ◌||◌, Option, none, some, List, [], ◌∷◌,
  ltb, leb, ◌==◌, if◌then◌else◌, text_eq, any,
}
use parking_system.Common.Int.{ℤ, pos, negsuc}
use parking_system.Python.{Python, Text, codes, strip}
use parking_system.Finance.Night.{day}

pub record Civil : Type 0 where
  pub year : ℕ
  pub month : ℕ
  pub day : ℕ

abbrev pub is_leap : ℕ → Bool
is_leap y = (y % 4 == 0) && not (y % 100 == 0) || (y % 400 == 0)

abbrev pub february : ℕ → ℕ
february y = if is_leap y then 29 else 28

-- `sal_a[1:]`
abbrev pub month_lengths : ℕ → List ℕ
month_lengths y = 31 ∷ february y ∷ 31 ∷ 30 ∷ 31 ∷ 30 ∷ 31 ∷ 31 ∷ 30 ∷ 31 ∷ 30 ∷ 31 ∷ []

-- The loop over the months, at month `i`; past December `gm` is still 0.
unfoldable pub find_month : ℕ → List ℕ → ℕ → ℕ × ℕ
find_month i [] gd = (0, gd)
find_month i (n ∷ ns) gd =
    let rest = find_month (i + 1) ns (gd - n) in if leb gd n then (i, gd) else rest

-- The days of a Jalali date since 0000-01-01, before the loop's divisions. The terms that are
-- negative are taken off last; `jy` is at least 1595, so that nothing is cut off.
unfoldable pub jalali_days : ℕ → ℕ → ℕ → ℕ
jalali_days y m d =
    let jy = y + 1595 in
    if ltb m 7
    then 365 * jy + jy / 33 * 8 + (jy % 33 + 3) / 4 + d + m * 31 - (355668 + 31)
    else 365 * jy + jy / 33 * 8 + (jy % 33 + 3) / 4 + d + (m - 7) * 30 + 186 - 355668

-- The year that a number of days falls in, and the days left of it: the divisions by the lengths of
-- 400, 100, 4 years and one year.
unfoldable pub century : ℕ → ℕ × ℕ
century days =
    if ltb 36524 days
    then (
      100 * ((days - 1) / 36524),
      (let left = (days - 1) % 36524 in if leb 365 left then left + 1 else left),
    )
    else (0, days)

unfoldable pub one_year : ℕ → ℕ × ℕ
one_year days = if ltb 365 days then ((days - 1) / 365, (days - 1) % 365) else (0, days)

unfoldable pub year_of_days : ℕ → ℕ × ℕ
unfolding century one_year
year_of_days days =
    let (hundreds, in_century) = century (days % 146097) in
    let (ones, left) = one_year (in_century % 1461) in
    (400 * (days / 146097) + hundreds + 4 * (in_century / 1461) + ones, left)

-- The day of the year, from 0, as a date.
unfoldable pub date_in : ℕ × ℕ → Civil
unfolding find_month
date_in (gy, left) =
    let (gm, gd) = find_month 1 (month_lengths gy) (left + 1) in
    record { year = gy; month = gm; day = gd }

unfoldable pub gregorian : ℕ → Civil
unfolding year_of_days date_in
gregorian days = date_in (year_of_days days)

-- `_jalali_to_gregorian`
unfoldable pub jalali_to_gregorian : ℕ → ℕ → ℕ → Civil
unfolding jalali_days gregorian
jalali_to_gregorian jy jm jd = gregorian (jalali_days jy jm jd)

-- The n-th entry, from 1, and 0 past the end.
abbrev pub entry : ℕ → List ℕ → ℕ
entry i [] = 0
entry i (n ∷ ns) = if leb i 1 then n else entry (i - 1) ns

abbrev pub sum_before : ℕ → List ℕ → ℕ
sum_before i [] = 0
sum_before i (n ∷ ns) = if leb i 1 then 0 else n + sum_before (i - 1) ns

-- What `datetime(y, m, d)` accepts.
unfoldable pub is_date : Civil → Bool
is_date c =
    leb 1 c.year
    && leb c.year 9999
    && leb 1 c.month
    && leb c.month 12
    && leb 1 c.day
    && leb c.day (entry c.month (month_lengths c.year))

-- `toordinal() - 1`: the days since 0001-01-01.
unfoldable pub ordinal : Civil → ℕ
ordinal c =
    let p = c.year - 1 in
    p * 365 + p / 4 + p / 400 - p / 100 + sum_before c.month (month_lengths c.year) + (c.day - 1)

-- How `parse_any_date` ends: nothing given, a message, an instant at midnight, or an exception of
-- `datetime`, which the branch of the Jalali calendar does not catch.
pub data DateResult : Type 0 where
  no_date bad_date raises : DateResult
  date : ℕ → DateResult

abbrev pub at_midnight : Civil → ℕ
at_midnight c = ordinal c * day

-- `str.split("-")` after `replace("/", "-")`
unfoldable pub split_date : Text → Text × List Text
split_date [] = ([], [])
split_date (c ∷ s) =
    let (part, parts) = split_date s in
    if (c == b'-') || (c == b'/') then ([], part ∷ parts) else (c ∷ part, parts)

-- The three numbers; they have no sign, since `-` separates them.
unfoldable pub of_numbers : ℕ → ℕ → ℕ → DateResult
of_numbers y m d =
    if ltb 1900 y
    then (let c : Civil = record { year = y; month = m; day = d } in
        if is_date c then date (at_midnight c) else bad_date)
    else (let c = jalali_to_gregorian y m d in if is_date c then date (at_midnight c) else raises)

abbrev pub of_ints : Option ℤ → Option ℤ → Option ℤ → DateResult
of_ints (some (pos y)) (some (pos m)) (some (pos d)) = of_numbers y m d
of_ints _ _ _ = bad_date

abbrev pub three_parts : Python → Text × List Text → DateResult
three_parts py (y, (m ∷ d ∷ [])) = of_ints (py.parse_int y) (py.parse_int m) (py.parse_int d)
three_parts py _ = bad_date

unfoldable pub drop_joiner : Text → Text
drop_joiner [] = []
drop_joiner (c ∷ s) = let rest = drop_joiner s in if c == 0x200c then rest else c ∷ rest

-- `parse_any_date` of a value's text.
unfoldable pub parse_any_date : Python → Option Text → DateResult
unfolding split_date of_numbers drop_joiner
parse_any_date py none = no_date
parse_any_date py (some value) =
    let s = strip py value in
    let low = py.lower s in
    if text_eq s []
      || text_eq low (codes "none")
      || text_eq low (codes "null")
      || text_eq low (codes "-")
    then no_date
    else three_parts py (split_date (strip py (drop_joiner s)))
