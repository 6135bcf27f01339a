-- ===== src/VehicleSync/Dates/Days.antt =====
-- The Gregorian date of a number of days counts them right.
use parking_system.Common.{
  ℕ, ◌+◌, ◌-◌, ◌*◌, ◌/◌, ◌%◌, ◌≤◌, ◌<◌, ◌≡◌, ◌≢◌, refl, subst, true, false, ◌&&◌, ◌||◌, List, [],
  ◌∷◌, arith, inl, inr, Bool-cases, ltb, leb, ◌==◌, if◌then◌else◌,
}
use parking_system.VehicleSync.Dates.{
  Civil, is_leap, month_lengths, find_month, century, one_year, year_of_days, gregorian, date_in,
  entry, sum_before, is_date, ordinal,
}

-- The days of the years before a year, from the year 1.
abbrev days_before : ℕ → ℕ
days_before y = (y - 1) * 365 + (y - 1) / 4 + (y - 1) / 400 - (y - 1) / 100

abbrev sum_of : List ℕ → ℕ
sum_of [] = 0
sum_of (n ∷ ns) = n + sum_of ns

-- By 400, 100, 4 years and single years.
by_parts :
    (a h c o : ℕ)
    → h ≤ 3
    → c ≤ 24
    → o ≤ 3
    → 1 ≤ 400 * a + 100 * h + 4 * c + o
    → days_before (400 * a + 100 * h + 4 * c + o) + 366
      ≡ 146097 * a
        + 36524 * h
        + 1461 * c
        + 365 * o
        + (if o == 0 then (if (c == 0) && ltb 0 h then 1 else 0) else 1)
by_parts a h c o hh hc ho y = ground arith

-- A month and a day that make up a number of days, the first month being `i`.
abbrev Found : ℕ → ℕ → ℕ → ℕ → List ℕ → Type 0
Found i gd m d ns =
    (i ≤ m) × (1 ≤ d) × (d ≤ entry (m + 1 - i) ns) × (sum_before (m + 1 - i) ns + d ≡ gd)

here_first : (i gd n : ℕ) (ns : List ℕ) → 1 ≤ gd → gd ≤ n → Found i gd i gd (n ∷ ns)
here_first i gd n ns one fits = ground arith

shift :
    (i m d gd n : ℕ) (ns : List ℕ)
    → n ≤ gd
    → Found (i + 1) (gd - n) m d ns
    → Found i gd m d (n ∷ ns)
shift i m d gd n ns le (h, one, fits, adds) =
    let e : m + 1 - i - 1 ≡ m + 1 - (i + 1) = omega arith in
    let deep : leb (m + 1 - i) 1 ≡ false = ground arith in
    (omega arith, one, rw (deep, e) fits, rw (deep, e) (omega arith))

month-Found :
    (i gd : ℕ) (ns : List ℕ)
    → 1 ≤ gd
    → gd ≤ sum_of ns
    → Found i gd (find_month i ns gd).0 (find_month i ns gd).1 ns
unfolding find_month
month-Found i gd [] one fits = absurd (omega arith)
month-Found i gd (n ∷ ns) one fits = elim (Bool-cases (leb gd n)) [
  | inl here ↦ rw here (here_first i gd n ns one (ground arith))
  | inr later ↦ rw later (
      shift i (find_month (i + 1) ns (gd - n)).0 (find_month (i + 1) ns (gd - n)).1 gd n ns
        (ground arith) (month-Found (i + 1) (gd - n) ns (ground arith) (omega arith)))
]

-- The division by centuries, the first of which has a day more.
century_lem :
    (r : ℕ)
    → r < 146097
    → (h : ℕ) × ((century r).0 ≡ 100 * h)
      × (h ≤ 3)
      × ((century r).1 ≤ 36524)
      × (36524 * h + (century r).1 + (if ltb 0 h && ltb (century r).1 365 then 1 else 0) ≡ r)
      × (ltb 0 h ≡ true → (century r).1 ≢ 365)
unfolding century
century_lem r lt = elim (Bool-cases (ltb 36524 r)) [
  | inl later ↦
      rw later
        ((r - 1) / 36524, refl, ground arith, ground arith, ground arith, (λ k. ground arith))
  | inr early ↦ rw early (0, refl, omega arith, ground arith, ground arith, (λ k. cc))
]

one_year_lem :
    (q : ℕ)
    → q < 1461
    → ((one_year q).0 ≤ 3)
      × (365 * (one_year q).0 + (one_year q).1 + (if (one_year q).0 == 0 then 0 else 1) ≡ q)
      × ((one_year q).1 < (if (one_year q).0 == 0 then 366 else 365))
unfolding one_year
one_year_lem q lt = ground arith

leap_length :
    (a h c o left : ℕ)
    → h ≤ 3
    → c ≤ 24
    → o ≤ 3
    → left < (if (o == 0) && ((h == 0) || ltb 0 c) then 366 else 365)
    → left < (if is_leap (400 * a + 100 * h + 4 * c + o) then 366 else 365)
leap_length a h c o left hh hc ho l = ground arith

module _ (n a h x o left : ℕ) (hh : h ≤ 3) (hx : x ≤ 36524) (ho : o ≤ 3)
    (in_n : 146097 * a + (36524 * h + x + (if ltb 0 h && ltb x 365 then 1 else 0)) ≡ n)
    (gap : ltb 0 h ≡ true → x ≢ 365) (in_x : 365 * o + left + (if o == 0 then 0 else 1) ≡ x % 1461)
    (in_year : left < (if o == 0 then 366 else 365)) (late : 366 ≤ n) where
  year-pos : 1 ≤ 400 * a + 100 * h + 4 * (x / 1461) + o
  year-pos = ground arith

  four_years : x / 1461 ≤ 24
  four_years = omega arith

  first_year : (o == 0) && ((x / 1461 == 0) && ltb 0 h) ≡ (ltb 0 h && ltb x 365)
  first_year = ground (arith, gap)

  counted : days_before (400 * a + 100 * h + 4 * (x / 1461) + o) + 366 + left ≡ n
  counted = ground (arith, by_parts a h (x / 1461) o hh four_years ho year-pos, first_year)

  ordinary : left < (if (o == 0) && ((h == 0) || ltb 0 (x / 1461)) then 366 else 365)
  ordinary = ground (arith, first_year)

-- The year of a number of days, and the days left of it.
year_lem :
    (n : ℕ)
    → 366 ≤ n
    → (1 ≤ (year_of_days n).0)
      × (days_before (year_of_days n).0 + 366 + (year_of_days n).1 ≡ n)
      × ((year_of_days n).1 < (if is_leap (year_of_days n).0 then 366 else 365))
unfolding year_of_days century one_year
year_lem n late =
    let (h, hundreds, hh, hx, adds, gap) = century_lem (n % 146097) (omega arith) in
    let x = (century (n % 146097)).1 in
    let (ho, ones, in_year) = one_year_lem (x % 1461) (omega arith) in
    let o = (one_year (x % 1461)).0 in
    let left = (one_year (x % 1461)).1 in
    let in_n : 146097 * (n / 146097) + (36524 * h + x + (if ltb 0 h && ltb x 365 then 1 else 0))
        ≡ n =
      omega (arith, adds) in
    rw hundreds (
      year-pos n (n / 146097) h x o left hh hx ho in_n gap ones in_year late,
      counted n (n / 146097) h x o left hh hx ho in_n gap ones in_year late,
      leap_length (n / 146097) h (x / 1461) o left hh
          (four_years n (n / 146097) h x o left hh hx ho in_n gap ones in_year late) ho
          (ordinary n (n / 146097) h x o left hh hx ho in_n gap ones in_year late),
    )

sum_of_year : (y : ℕ) → sum_of (month_lengths y) ≡ (if is_leap y then 366 else 365)
sum_of_year y = ground arith

by_month :
    (y m d : ℕ) (ns : List ℕ) (left : ℕ)
    → ns ≡ month_lengths y
    → Found 1 (left + 1) m d ns
    → (sum_before m (month_lengths y) + (d - 1) ≡ left) × (1 ≤ d) × (d ≤ entry m (month_lengths y))
by_month y m d ns left same (h, one, fits, adds) =
    let e : m + 1 - 1 ≡ m = omega arith in
    (
      omega (arith, subst (λ k. sum_before m k + d ≡ left + 1) same (rw e at adds)),
      one,
      subst (λ k. d ≤ entry m k) same (rw e at fits),
    )

entry_past : (y m : ℕ) → 12 < m → entry m (month_lengths y) ≡ 0
entry_past y m h = ground arith

le→leb : (a b : ℕ) → a ≤ b → leb a b ≡ true
le→leb a b h = ground arith

is_date_of :
    (c : Civil)
    → 1 ≤ c.year
    → c.year ≤ 9999
    → 1 ≤ c.month
    → 1 ≤ c.day
    → c.day ≤ entry c.month (month_lengths c.year)
    → is_date c ≡ true
unfolding is_date
is_date_of c y y9 m d fits = elim (Bool-cases (leb c.month 12)) [
  | inl within ↦ rw (
    le→leb 1 c.year y,
    le→leb c.year 9999 y9,
    le→leb 1 c.month m,
    within,
    le→leb 1 c.day d,
    le→leb c.day (entry c.month (month_lengths c.year)) fits,
  )
  | inr past ↦ absurd (omega (arith, entry_past c.year c.month (ground arith)))
]

month_day : (y left : ℕ) → ℕ × ℕ
month_day y left = find_month 1 (month_lengths y) (left + 1)

found_in :
    (y left : ℕ)
    → left < (if is_leap y then 366 else 365)
    → (sum_before (month_day y left).0 (month_lengths y) + ((month_day y left).1 - 1) ≡ left)
      × (1 ≤ (month_day y left).0)
      × (1 ≤ (month_day y left).1)
      × ((month_day y left).1 ≤ entry (month_day y left).0 (month_lengths y))
unfolding month_day
found_in y left fits =
    let found =
      month-Found 1 (left + 1) (month_lengths y) (omega arith) (omega (arith, sum_of_year y)) in
    let (adds, one, le) = by_month y _ _ (month_lengths y) left refl found in
    (adds, found.0, one, le)

-- A day of a year: its date is that many days after those of the years before, and is one that
-- Python's datetime accepts up to the year 9999.
day_of_year :
    (y left : ℕ)
    → 1 ≤ y
    → left < (if is_leap y then 366 else 365)
    → (ordinal (date_in (y, left)) ≡ days_before y + left)
      × (y ≤ 9999 → is_date (date_in (y, left)) ≡ true)
unfolding ordinal date_in month_day
day_of_year y left one fits =
    let (adds, m, d, le) = found_in y left fits in
    (omega (arith, adds), (λ y9. is_date_of (date_in (y, left)) one y9 m d le))

-- The conversion counts days right from the year 1 on: the date of a number of days since 0000-01-01
-- is that many days later in the Gregorian calendar, and up to the year 9999 it is a date.
pub gregorian_days :
    (n : ℕ)
    → 366 ≤ n
    → (ordinal (gregorian n) + 366 ≡ n) × ((gregorian n).year ≤ 9999 → is_date (gregorian n) ≡ true)
unfolding gregorian
gregorian_days n late =
    let (one, counted, fits) = year_lem n late in
    let (days, valid) = day_of_year (year_of_days n).0 (year_of_days n).1 one fits in
    (omega (arith, counted, days), valid)
