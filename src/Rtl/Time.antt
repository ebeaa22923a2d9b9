-- ===== src/Rtl/Time.antt =====
-- RtlTimeFieldsToTime and RtlTimeToTimeFields of src/std/rtl.cpp: a time in ticks of 100 ns since
-- 1601-01-01, and its calendar fields. The fields that are put together are not negative here. A time
-- is below 2 ^ 63; the year of one that is fits a CSHORT (`Decode.year_bound`). A time before 1601,
-- which is negative, has a function of its own.
pub mod Calendar
pub mod Decode
pub mod Encode
pub mod Before
mod Tests
use crescent.Common.{
  ℕ, zero, suc, ◌+◌, ◌-◌, ◌*◌, ◌/◌, ◌%◌, ◌^◌, Bool, true, false, not, ◌&&◌, ◌||◌, Option, none,
  some, List, [], ◌∷◌, ltb, leb, ◌==◌, if◌then◌else◌, get_or,
}

-- `TIME_FIELDS`.
pub record TimeFields : Type 0 where
  pub year : ℕ
  pub month : ℕ
  pub day : ℕ
  pub hour : ℕ
  pub minute : ℕ
  pub second : ℕ
  pub milliseconds : ℕ
  pub weekday : ℕ

-- `NS_IN_MS / 100`, which is also `TICKS_IN_MS`.
abbrev pub ticks_in_ms : ℕ
ticks_in_ms = 10_000

-- `NS_IN_S / 100`.
abbrev pub ticks_in_s : ℕ
ticks_in_s = 10_000_000

abbrev pub ticks_in_day : ℕ
ticks_in_day = 864_000_000_000

abbrev pub epoch_year : ℕ
epoch_year = 1601

pub is_leap : ℕ → Bool
is_leap year = year % 400 == 0 || (year % 4 == 0 && not (year % 100 == 0))

pub days_per_year : ℕ → ℕ
days_per_year year = if is_leap year then 366 else 365

abbrev pub days_in_months_noleap : List ℕ
days_in_months_noleap = 31 ∷ 28 ∷ 31 ∷ 30 ∷ 31 ∷ 30 ∷ 31 ∷ 31 ∷ 30 ∷ 31 ∷ 30 ∷ 31 ∷ []

abbrev pub days_in_months_leap : List ℕ
days_in_months_leap = 31 ∷ 29 ∷ 31 ∷ 30 ∷ 31 ∷ 30 ∷ 31 ∷ 31 ∷ 30 ∷ 31 ∷ 30 ∷ 31 ∷ []

pub days_per_month_table : ℕ → List ℕ
days_per_month_table year = if is_leap year then days_in_months_leap else days_in_months_noleap

-- `for (i = 1; i < month; ++i) value += table[i] * …`, at `i`, with `rounds` rounds to go.
pub add_months : ℕ → ℕ → List ℕ → ℕ → ℕ
add_months zero i table value = value
add_months (suc rounds) i table value =
    add_months rounds (i + 1) table (value + get_or table i 0 * ticks_in_day)

-- `for (i = EPOCH_YEAR; i < year; ++i) value += days_per_year(i) * …`.
pub add_years : ℕ → ℕ → ℕ → ℕ
add_years zero i value = value
add_years (suc rounds) i value = add_years rounds (i + 1) (value + days_per_year i * ticks_in_day)

-- The part of a time that the fields below the month give. The day is at least 1.
pub ticks_in_month : TimeFields → ℕ
ticks_in_month f =
    f.milliseconds * ticks_in_ms
    + f.second * ticks_in_s
    + f.minute * (ticks_in_s * 60)
    + f.hour * (ticks_in_s * 60 * 60)
    + (f.day - 1) * ticks_in_day

-- A sum in an `i64`, which is `none` on overflow. Each step adds something that is not negative, so
-- if one of them overflows, the last sum is too large.
abbrev pub as_i64 : ℕ → Option ℕ
as_i64 value = if ltb value (2 ^ 63) then some value else none

-- `RtlTimeFieldsToTime`; `none` is the failed assertion, or an overflow.
pub fields_to_time : TimeFields → Option ℕ
unfolding add_months add_years ticks_in_month
fields_to_time f =
    let value = ticks_in_month f in
    let value = add_months (f.month - 1) 1 (days_per_month_table f.year) value in
    if leb epoch_year f.year
    then as_i64 (add_years (f.year - epoch_year) epoch_year value)
    else none

-- The loop over the years: the year, and the days left in it.
pub find_year : ℕ → ℕ → ℕ → ℕ × ℕ
find_year zero year days = (year, days)
find_year (suc fuel) year days =
    let later = find_year fuel (year + 1) (days - days_per_year year) in
    if leb (days_per_year year) days then later else (year, days)

-- The loop over the months: the month, and the days left in it.
pub find_month : List ℕ → ℕ → ℕ → ℕ × ℕ
find_month [] month days = (month, days)
find_month (n ∷ table) month days =
    let later = find_month table (month + 1) (days - n) in
    if leb n days then later else (month, days)

-- `RtlTimeToTimeFields` of a time that is not negative. A year takes more than one day, so the fuel suffices.
pub time_to_fields : ℕ → TimeFields
unfolding find_year find_month
time_to_fields time =
    let seconds = time / ticks_in_s in
    let ticks_within_sec = time % ticks_in_s in
    let days_since_epoch = seconds / (60 * 60 * 24) in
    let (year, days) = find_year (days_since_epoch + 1) epoch_year days_since_epoch in
    let (month, left) = find_month (days_per_month_table year) 1 days in
    record {
      year = year;
      month = month;
      day = left + 1;
      hour = seconds / 60 / 60 % 24;
      minute = seconds / 60 % 60;
      second = seconds % 60;
      milliseconds = ticks_within_sec / ticks_in_ms;
      weekday = (days_since_epoch + 1) % 7;
    }

-- A CSHORT that is minus `n`, as its 16 bits.
abbrev pub minus : ℕ → ℕ
minus n = (2 ^ 16 - n % 2 ^ 16) % 2 ^ 16

-- `RtlTimeToTimeFields` of minus `time`. Divisions cut towards 0, and neither loop takes a turn, since
-- the days are fewer than those of any year or month.
unfoldable pub time_to_fields_before : ℕ → TimeFields
time_to_fields_before time =
    let seconds = time / ticks_in_s in
    let ticks_within_sec = time % ticks_in_s in
    let days = seconds / (60 * 60 * 24) in
    record {
      year = epoch_year;
      month = 1;
      day = (1 + minus days) % 2 ^ 16;
      hour = minus (seconds / 60 / 60 % 24);
      minute = minus (seconds / 60 % 60);
      second = minus (seconds % 60);
      milliseconds = minus (ticks_within_sec / ticks_in_ms);
      weekday = if days == 0 then 1 else minus ((days - 1) % 7);
    }
