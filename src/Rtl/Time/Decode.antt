-- ===== src/Rtl/Time/Decode.antt =====
-- RtlTimeToTimeFields is right: valid fields, that name the time to the millisecond.
use crescent.Common.{
  refl, ℕ, zero, suc, ◌+◌, ◌-◌, ◌*◌, ◌/◌, ◌%◌, ◌≤◌, ◌<◌, ◌≡◌, inl, inr, List, [], ◌∷◌, arith,
  get_or, take, length, Bool-cases, leb, ◌^◌,
}
use crescent.Rtl.Time.{
  TimeFields, days_per_year, days_per_month_table, find_year, find_month, time_to_fields,
  epoch_year, ticks_in_s, ticks_in_ms, ticks_in_day, ticks_in_month,
}
use crescent.Rtl.Time.Calendar.{
  sum, days_of_years, days_before, days_in_month, calendar_time, IsValid, days_per_year_bounds,
  sum-table, length-table,
}

-- `n` whole years have passed, and `r` days of the next.
abbrev YearFound : ℕ → ℕ → ℕ × ℕ → Type 0
YearFound year days (y, r) =
    (n : ℕ) × (y ≡ year + n) × (days ≡ days_of_years year n + r) × (r < days_per_year y)

find_year-YearFound :
    (fuel year days : ℕ) → days < fuel → YearFound year days (find_year fuel year days)
unfolding find_year days_of_years
find_year-YearFound zero year days h = absurd (omega arith)
find_year-YearFound (suc fuel) year days h = elim (Bool-cases (leb (days_per_year year) days)) [
  | inl e ↦ rw e (
      let (n, y, d, r) =
        find_year-YearFound fuel (year + 1) (days - days_per_year year)
          (ground (arith, days_per_year_bounds year)) in
      (suc n, omega arith, ground arith, r))
  | inr e ↦ rw e (0, omega arith, omega arith, ground arith)
]

abbrev MonthFound : List ℕ → ℕ → ℕ → ℕ × ℕ → Type 0
MonthFound table month days (m, r) =
    (k : ℕ) × (m ≡ month + k)
    × (k < length table)
    × (days ≡ sum (take k table) + r)
    × (r < get_or table k 0)

find_month-MonthFound :
    (table : List ℕ) (month days : ℕ)
    → days < sum table
    → MonthFound table month days (find_month table month days)
unfolding find_month
find_month-MonthFound [] month days h = absurd (omega arith)
find_month-MonthFound (n ∷ table) month days h = elim (Bool-cases (leb n days)) [
  | inl e ↦ rw e (
      let (k, m, lt, d, r) = find_month-MonthFound table (month + 1) (days - n) (ground arith) in
      (suc k, omega arith, omega arith, ground arith, r))
  | inr e ↦ rw e (0, omega arith, omega arith, omega arith, ground arith)
]

-- The year, the month and the day of a number of days since the epoch.
record DateFound (days : ℕ) (f : TimeFields) : Type 0 where
  year_in : epoch_year ≤ f.year
  month_in : (1 ≤ f.month) × (f.month ≤ 12)
  day_in : (1 ≤ f.day) × (f.day ≤ days_in_month f)
  sum_up : days ≡ days_before f + (f.day - 1)
  short_of : f.year ≤ epoch_year + days / 365

days_of_years-le : (y n : ℕ) → 365 * n ≤ days_of_years y n
unfolding days_of_years
days_of_years-le y zero = omega arith
days_of_years-le y (suc n) = omega (arith, days_per_year_bounds y, days_of_years-le (y + 1) n)

date_found :
    (days year left month rest h mi se ms wd : ℕ)
    → YearFound epoch_year days (year, left)
    → MonthFound (days_per_month_table year) 1 left (month, rest)
    → DateFound days (record {
      year = year;
      month = month;
      day = rest + 1;
      hour = h;
      minute = mi;
      second = se;
      milliseconds = ms;
      weekday = wd;
    })
unfolding days_before days_in_month
date_found days year left month rest h mi se ms wd (n, y, d, r) (k, m, lt, d', r') =
    let e : month - 1 ≡ k = omega arith in
    let e' : year - epoch_year ≡ n = omega arith in
    record {
      year_in = omega arith;
      month_in = omega (arith, length-table year);
      day_in = rw e (omega arith);
      sum_up = rw (e, e') (omega arith);
      short_of = omega (arith, days_of_years-le epoch_year n);
    }

time_to_fields-DateFound : (time : ℕ) → DateFound (time / ticks_in_s / 86400) (time_to_fields time)
unfolding time_to_fields
time_to_fields-DateFound time =
    let days : ℕ = time / ticks_in_s / 86400 in
    let found = find_year-YearFound (days + 1) epoch_year days (omega arith) in
    let year = (find_year (days + 1) epoch_year days).0 in
    let left = (find_year (days + 1) epoch_year days).1 in
    date_found days year left _ _ _ _ _ _ _ found
      (find_month-MonthFound (days_per_month_table year) 1 left (rw (sum-table year) (found.3)))

ticks_in_day_lem :
    (time : ℕ)
    → ticks_in_month (time_to_fields time) + time % ticks_in_ms
      ≡ ((time_to_fields time).day - 1) * ticks_in_day + time % ticks_in_day
unfolding ticks_in_month time_to_fields
ticks_in_day_lem time = omega arith

pub time_to_fields-IsValid :
    (time : ℕ)
    → IsValid (time_to_fields time)
      × (calendar_time (time_to_fields time) + time % ticks_in_ms ≡ time)
time_to_fields-IsValid time =
    let found = time_to_fields-DateFound time in
    (
      record {
        year_in = found.year_in;
        month_in = found.month_in;
        day_in = found.day_in;
        time_in = unfold time_to_fields in (omega arith);
      },
      unfold calendar_time in (omega (arith, found.sum_up, ticks_in_day_lem time)),
    )

pub year_bound : (time : ℕ) → time < 2 ^ 63 → (time_to_fields time).year < 2 ^ 15
year_bound time h = omega (arith, (time_to_fields-DateFound time).short_of)

weekday_lem :
    (time : ℕ)
    → (time_to_fields time).weekday
      ≡ (days_before (time_to_fields time) + (time_to_fields time).day) % 7
weekday_lem time =
    let found = time_to_fields-DateFound time in
    let week : (time_to_fields time).weekday ≡ (time / ticks_in_s / 86400 + 1) % 7 =
      unfold time_to_fields in refl in
    omega (arith, found.sum_up, week, found.day_in)

-- A time that is not negative and that a LONGLONG holds has valid fields, with a year that a CSHORT
-- holds, and the fields name that time cut to whole milliseconds. The day of the week is that of the
-- date, counted from 0 for a Sunday, where the epoch is a Monday.
pub time_to_fields_lem :
    (time : ℕ)
    → time < 2 ^ 63
    → IsValid (time_to_fields time)
      × ((time_to_fields time).year < 2 ^ 15)
      × (calendar_time (time_to_fields time) + time % ticks_in_ms ≡ time)
      × ((time_to_fields time).weekday
          ≡ (days_before (time_to_fields time) + (time_to_fields time).day) % 7)
time_to_fields_lem time small =
    let (valid, e) = time_to_fields-IsValid time in
    (valid, year_bound time small, e, weekday_lem time)
