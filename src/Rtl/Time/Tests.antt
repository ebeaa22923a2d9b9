-- ===== src/Rtl/Time/Tests.antt =====
-- Tests of the time functions, and their theorems at concrete times.
use crescent.Common.{
  ◌-◌, none, ltb, if◌then◌else◌, ℕ, ◌+◌, ◌*◌, ◌%◌, ◌^◌, ◌<◌, ◌≡◌, ◌↔◌, refl, some, arith,
}
use crescent.Rtl.Time.{
  TimeFields, fields_to_time, time_to_fields, time_to_fields_before, ticks_in_day, ticks_in_ms,
  is_leap, days_per_year, days_per_month_table, ticks_in_month,
}
use crescent.Rtl.Time.Calendar.{
  IsValid, calendar_time, days_in_month, days_before, days_before_month,
}
use crescent.Rtl.Time.Calendar.{days_of_years, days_before_month}
use crescent.Rtl.Time.{ticks_in_month}
use crescent.Rtl.Time.Decode.{time_to_fields_lem}
use crescent.Rtl.Time.Encode.{fields_to_time_error, fields_to_time_exact, time_round_trip}

-- 1604-02-29 12:34:56.789
abbrev leap_day : TimeFields
leap_day = record {
  year = 1604;
  month = 2;
  day = 29;
  hour = 12;
  minute = 34;
  second = 56;
  milliseconds = 789;
  weekday = 0;
}

leap_day-IsValid : IsValid leap_day
unfolding days_in_month days_per_month_table is_leap
leap_day-IsValid = record {
  year_in = omega arith;
  month_in = omega arith;
  day_in = omega arith;
  time_in = omega arith;
}

-- 1154 days after the epoch.
decoded : time_to_fields 997_508_967_890_123 ≡ leap_day
unfolding time_to_fields is_leap days_per_year days_per_month_table
decoded = refl

-- Two days early: February 1604 has 29 days.
encoded : fields_to_time leap_day ≡ some 995_780_967_890_000
unfolding fields_to_time is_leap days_per_year days_per_month_table
encoded = refl

time_to_fields_example :
    IsValid (time_to_fields 997_508_967_890_123)
    × ((time_to_fields 997_508_967_890_123).year < 2 ^ 15)
    × (calendar_time (time_to_fields 997_508_967_890_123) + 997_508_967_890_123 % ticks_in_ms
        ≡ 997_508_967_890_123)
    × ((time_to_fields 997_508_967_890_123).weekday
        ≡ (days_before (time_to_fields 997_508_967_890_123)
            + (time_to_fields 997_508_967_890_123).day)
          % 7)
time_to_fields_example = time_to_fields_lem 997_508_967_890_123 (omega arith)

fields_to_time_error_example :
    (v : ℕ) × (v + 31 * ticks_in_day
      ≡ calendar_time leap_day + days_in_month leap_day * ticks_in_day)
    × (fields_to_time leap_day ≡ (if ltb v (2 ^ 63) then some v else none))
fields_to_time_error_example = fields_to_time_error leap_day leap_day-IsValid

leap_day_small : calendar_time leap_day < 2 ^ 63
unfolding calendar_time days_before days_before_month days_of_years ticks_in_month is_leap
    days_per_year days_per_month_table
leap_day_small = omega arith

fields_to_time_exact_example :
    (fields_to_time leap_day ≡ some (calendar_time leap_day)) ↔ (days_in_month leap_day ≡ 31)
fields_to_time_exact_example = fields_to_time_exact leap_day leap_day-IsValid leap_day_small

time_round_trip_example :
    (v : ℕ) × (fields_to_time (time_to_fields 997_508_967_890_123) ≡ some v)
    × (v + 31 * ticks_in_day + 997_508_967_890_123 % ticks_in_ms
        ≡ 997_508_967_890_123 + days_in_month (time_to_fields 997_508_967_890_123) * ticks_in_day)
time_round_trip_example = time_round_trip 997_508_967_890_123 (omega arith)

-- A second before 1601: the seconds are -1, on the first day of 1601.
second_before : (time_to_fields_before 10_000_000).second ≡ 2 ^ 16 - 1
unfolding time_to_fields_before
second_before = refl
