-- ===== src/Rtl/Time/Calendar.antt =====
-- The calendar that the two functions stand for: the days before a year and before a month, and
-- the ticks that valid fields name.
use crescent.Common.{
  leb, if◌then◌else◌, ℕ, zero, suc, ◌+◌, ◌-◌, ◌*◌, ◌≤◌, ◌<◌, ◌≡◌, inl, inr, List, [], ◌∷◌, arith,
  get_or, take, length, Bool-cases,
}
use crescent.Rtl.Time.{
  TimeFields, is_leap, days_per_year, days_per_month_table, days_in_months_leap,
  days_in_months_noleap, ticks_in_day, epoch_year, ticks_in_month,
}

abbrev pub sum : List ℕ → ℕ
sum [] = 0
sum (x ∷ xs) = x + sum xs

-- The days of the `n` years from `year` on.
unfoldable pub days_of_years : ℕ → ℕ → ℕ
days_of_years year zero = 0
days_of_years year (suc n) = days_per_year year + days_of_years (year + 1) n

-- The days of the year before a month.
unfoldable pub days_before_month : TimeFields → ℕ
days_before_month f = sum (take (f.month - 1) (days_per_month_table f.year))

unfoldable pub days_in_month : TimeFields → ℕ
days_in_month f = get_or (days_per_month_table f.year) (f.month - 1) 0

-- The days from the epoch to the first of the month.
unfoldable pub days_before : TimeFields → ℕ
unfolding days_before_month
days_before f = days_of_years epoch_year (f.year - epoch_year) + days_before_month f

-- The time that the fields name.
unfoldable pub calendar_time : TimeFields → ℕ
unfolding days_before
calendar_time f = days_before f * ticks_in_day + ticks_in_month f

pub record IsValid (f : TimeFields) : Type 0 where
  pub year_in : epoch_year ≤ f.year
  pub month_in : (1 ≤ f.month) × (f.month ≤ 12)
  pub day_in : (1 ≤ f.day) × (f.day ≤ days_in_month f)
  pub time_in : (f.hour < 24) × (f.minute < 60) × (f.second < 60) × (f.milliseconds < 1000)

pub days_per_year_bounds : (y : ℕ) → (365 ≤ days_per_year y) × (days_per_year y ≤ 366)
unfolding days_per_year
days_per_year_bounds y = ground arith

pub sum-table : (y : ℕ) → sum (days_per_month_table y) ≡ days_per_year y
unfolding days_per_year days_per_month_table
sum-table y = elim (Bool-cases (is_leap y)) [ inl e ↦ rw e | inr e ↦ rw e ]

pub length-table : (y : ℕ) → length (days_per_month_table y) ≡ 12
unfolding days_per_month_table
length-table y = elim (Bool-cases (is_leap y)) [ inl e ↦ rw e | inr e ↦ rw e ]

pub first_of_table : (y : ℕ) → get_or (days_per_month_table y) 0 0 ≡ 31
unfolding days_per_month_table
first_of_table y = elim (Bool-cases (is_leap y)) [ inl e ↦ rw e | inr e ↦ rw e ]

abbrev largest : List ℕ → ℕ
largest [] = 0
largest (x ∷ xs) = let rest = largest xs in if leb rest x then x else rest

get_or-le : (xs : List ℕ) (i : ℕ) → get_or xs i 0 ≤ largest xs
get_or-le [] i = omega arith
get_or-le (x ∷ xs) zero = ground arith
get_or-le (x ∷ xs) (suc i) = ground (arith, get_or-le xs i)

pub days_in_month-le : (f : TimeFields) → days_in_month f ≤ 31
unfolding days_in_month days_per_month_table
days_in_month-le f = elim (Bool-cases (is_leap f.year)) [
  | inl e ↦ rw e (get_or-le days_in_months_leap (f.month - 1))
  | inr e ↦ rw e (get_or-le days_in_months_noleap (f.month - 1))
]
