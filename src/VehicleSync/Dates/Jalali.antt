-- ===== src/VehicleSync/Dates/Jalali.antt =====
-- The conversion of Jalali dates follows the Jalali calendar day by day.
use parking_system.Common.{
  ℕ, ◌+◌, ◌%◌, ◌≤◌, ◌≡◌, refl, Bool, not, ◌&&◌, arith, ltb, ◌==◌, if◌then◌else◌,
}
use parking_system.VehicleSync.Dates.{jalali_days, jalali_to_gregorian, ordinal}
use parking_system.VehicleSync.Dates.Days.{gregorian_days}

-- The leap years of the cycle of 33.
abbrev pub is_jalali_leap : ℕ → Bool
is_jalali_leap y = ((y + 1595) % 33 % 4 == 0) && not ((y + 1595) % 33 == 32)

abbrev pub jalali_month : ℕ → ℕ → ℕ
jalali_month y m =
    if ltb m 7 then 31 else if ltb m 12 then 30 else if is_jalali_leap y then 30 else 29

-- The day after a day of the Jalali calendar, written as year, month and day.
abbrev pub jalali_next : ℕ → ℕ → ℕ → ℕ × ℕ × ℕ
jalali_next y m d =
    if ltb d (jalali_month y m)
    then (y, m, d + 1)
    else if ltb m 12
    then (y, m + 1, 1)
    else (y + 1, 1, 1)

days_next :
    (y m d : ℕ)
    → 1 ≤ m
    → m ≤ 12
    → d ≤ jalali_month y m
    → let (y', m', d') = jalali_next y m d in jalali_days y' m' d' ≡ jalali_days y m d + 1
unfolding jalali_days
days_next y m d one le fits = ground arith

days_late : (y m d : ℕ) → 366 ≤ jalali_days y m d
unfolding jalali_days
days_late y m d = ground arith

ordinal_days : (y m d : ℕ) → ordinal (jalali_to_gregorian y m d) + 366 ≡ jalali_days y m d
unfolding jalali_to_gregorian
ordinal_days y m d = (gregorian_days (jalali_days y m d) (days_late y m d)).0

first_day : jalali_to_gregorian 1 1 1 ≡ record { year = 622; month = 3; day = 21 }
unfolding jalali_to_gregorian
first_day = refl

-- The day after a day of the Jalali calendar, also over the ends of months and of years, is converted
-- to the day after in the Gregorian calendar.
pub jalali_follows :
    (y m d : ℕ)
    → 1 ≤ m
    → m ≤ 12
    → d ≤ jalali_month y m
    → let (y', m', d') = jalali_next y m d in
      ordinal (jalali_to_gregorian y' m' d') ≡ ordinal (jalali_to_gregorian y m d) + 1
jalali_follows y m d one le fits =
    let (y', m', d') = jalali_next y m d in
    omega (arith, ordinal_days y' m' d', ordinal_days y m d, days_next y m d one le fits)
