-- ===== src/Rtl/Time/Encode.antt =====
-- RtlTimeFieldsToTime against the calendar: its month loop runs over the entries 1 … month - 1 of a
-- table that starts at entry 0, so it counts the current month in place of January.
use crescent.Common.{
  sym, none, ltb, ◌^◌, if◌then◌else◌, ◌∙◌, ap, ℕ, zero, suc, ◌+◌, ◌-◌, ◌*◌, ◌%◌, ◌≤◌, ◌<◌, ◌≡◌, ◌↔◌,
  refl, List, [], ◌∷◌, some, arith, get_or, take, length,
}
use crescent.Rtl.Time.{
  TimeFields, days_per_year, days_per_month_table, add_months, add_years, fields_to_time,
  time_to_fields, as_i64, epoch_year, ticks_in_ms, ticks_in_day, ticks_in_month,
}
use crescent.Rtl.Time.Calendar.{
  sum, days_of_years, days_in_month, days_in_month-le, calendar_time, IsValid, first_of_table,
  length-table,
}
use crescent.Rtl.Time.Decode.{time_to_fields-IsValid}

add_years_lem : (n i value : ℕ) → add_years n i value ≡ value + days_of_years i n * ticks_in_day
unfolding add_years days_of_years
add_years_lem zero i value = omega arith
add_years_lem (suc n) i value =
    omega (arith, add_years_lem n (i + 1) (value + days_per_year i * ticks_in_day))

-- The days of `n` entries of the table, from entry `i` on.
range_sum : List ℕ → ℕ → ℕ → ℕ
range_sum table i zero = 0
range_sum table i (suc n) = get_or table i 0 + range_sum table (i + 1) n

add_months_lem :
    (n i : ℕ) (table : List ℕ) (value : ℕ)
    → add_months n i table value ≡ value + range_sum table i n * ticks_in_day
unfolding add_months range_sum
add_months_lem zero i table value = omega arith
add_months_lem (suc n) i table value =
    omega (arith, add_months_lem n (i + 1) table (value + get_or table i 0 * ticks_in_day))

range_sum-cons :
    (x : ℕ) (xs : List ℕ) (i j n : ℕ) → j ≡ suc i → range_sum (x ∷ xs) j n ≡ range_sum xs i n
unfolding range_sum
range_sum-cons x xs i j zero e = refl
range_sum-cons x xs i j (suc n) e = rw (range_sum-cons x xs (i + 1) (j + 1) n (omega arith), e)

range_sum-take : (xs : List ℕ) (n : ℕ) → n ≤ length xs → range_sum xs 0 n ≡ sum (take n xs)
unfolding range_sum
range_sum-take xs zero h = refl
range_sum-take [] (suc n) h = absurd (omega arith)
range_sum-take (x ∷ xs) (suc n) h =
    omega (arith, range_sum-cons x xs 0 (0 + 1) n (omega arith), range_sum-take xs n (omega arith))

sum-take-suc :
    (xs : List ℕ) (n : ℕ) → n < length xs → sum (take n xs) + get_or xs n 0 ≡ sum (take (suc n) xs)
sum-take-suc [] n h = absurd (omega arith)
sum-take-suc (x ∷ xs) zero h = omega arith
sum-take-suc (x ∷ xs) (suc n) h = omega (arith, sum-take-suc xs n (omega arith))

-- The loop adds the current month and leaves out the first.
range_sum_shift :
    (xs : List ℕ) (n : ℕ)
    → n < length xs
    → range_sum xs 1 n + get_or xs 0 0 ≡ sum (take n xs) + get_or xs n 0
range_sum_shift [] n h = absurd (omega arith)
range_sum_shift (x ∷ xs) n h = omega (
  arith,
  range_sum-cons x xs 0 1 n refl,
  range_sum-take xs n (omega arith),
  sum-take-suc (x ∷ xs) n h,
)

as_i64_small : (v : ℕ) → v < 2 ^ 63 → as_i64 v ≡ some v
as_i64_small v h = ground arith

as_i64-value : (v w : ℕ) → as_i64 v ≡ some w → v ≡ w
as_i64-value v w e = ground arith

-- What the loops compute once the assertion holds.
abbrev encoded : TimeFields → ℕ
encoded f =
    add_years (f.year - epoch_year) epoch_year
      (add_months (f.month - 1) 1 (days_per_month_table f.year) (ticks_in_month f))

fields_to_time-encoded :
    (f : TimeFields) → epoch_year ≤ f.year → fields_to_time f ≡ as_i64 (encoded f)
unfolding fields_to_time
fields_to_time-encoded f h = ground arith

encoded_error :
    (f : TimeFields)
    → IsValid f
    → encoded f + 31 * ticks_in_day ≡ calendar_time f + days_in_month f * ticks_in_day
unfolding calendar_time days_in_month
encoded_error f v = omega (
  arith,
  add_years_lem (f.year - epoch_year) epoch_year
      (add_months (f.month - 1) 1 (days_per_month_table f.year) (ticks_in_month f)),
  add_months_lem (f.month - 1) 1 (days_per_month_table f.year) (ticks_in_month f),
  range_sum_shift (days_per_month_table f.year) (f.month - 1)
      (omega (arith, v.month_in, length-table f.year)),
  first_of_table f.year,
)

-- For valid fields `fields_to_time` computes the calendar's time plus the length of the current
-- month minus the 31 days of January. It returns that if it is below 2 ^ 63, and overflows otherwise.
pub fields_to_time_error :
    (f : TimeFields)
    → IsValid f
    → (v : ℕ) × (v + 31 * ticks_in_day ≡ calendar_time f + days_in_month f * ticks_in_day)
      × (fields_to_time f ≡ (if ltb v (2 ^ 63) then some v else none))
fields_to_time_error f v = (encoded f, encoded_error f v, fields_to_time-encoded f v.year_in)

-- A result is the calendar's time exactly in the months of 31 days.
pub fields_to_time_exact :
    (f : TimeFields)
    → IsValid f
    → calendar_time f < 2 ^ 63
    → (fields_to_time f ≡ some (calendar_time f)) ↔ (days_in_month f ≡ 31)
fields_to_time_exact f v small = (
  (λ e. omega (
    arith,
    encoded_error f v,
    as_i64-value (encoded f) (calendar_time f) (sym (fields_to_time-encoded f v.year_in) ∙ e),
  )),
  (λ e.
      let same : encoded f ≡ calendar_time f = omega (arith, encoded_error f v, e) in
      fields_to_time-encoded f v.year_in ∙ ap as_i64 same ∙ as_i64_small (calendar_time f) small),
)

-- A time below 2 ^ 63 that is taken apart and put together again comes back, cut to milliseconds, in the months of 31
-- days only; in another month it is short by the days that the month is short of 31.
pub time_round_trip :
    (time : ℕ)
    → time < 2 ^ 63
    → (v : ℕ) × (fields_to_time (time_to_fields time) ≡ some v)
      × (v + 31 * ticks_in_day + time % ticks_in_ms
          ≡ time + days_in_month (time_to_fields time) * ticks_in_day)
time_round_trip time small =
    let (valid, e) = time_to_fields-IsValid time in
    let (v, error, same) = fields_to_time_error (time_to_fields time) valid in
    let short : v < 2 ^ 63 =
      omega (arith, small, error, e, days_in_month-le (time_to_fields time)) in
    (v, same ∙ as_i64_small v short, omega arith)
