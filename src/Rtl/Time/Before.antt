-- ===== src/Rtl/Time/Before.antt =====
-- RtlTimeToTimeFields of src/std/rtl.cpp for a time before 1601.
use crescent.Common.{ℕ, ◌+◌, ◌*◌, ◌/◌, ◌%◌, ◌^◌, ◌≤◌, ◌<◌, ◌≡◌, arith}
use crescent.Rtl.Time.{time_to_fields_before, minus, ticks_in_ms, ticks_in_s, ticks_in_day}
use crescent.Rtl.Time.Calendar.{IsValid, days_in_month-le}

minus_small : (n b : ℕ) → n < 2 ^ 15 → b ≤ 2 ^ 15 → minus n < b → n ≡ 0
minus_small n b h hb lt = omega arith

day_small : (n : ℕ) → n < 2 ^ 15 → 1 ≤ (1 + minus n) % 2 ^ 16 → (1 + minus n) % 2 ^ 16 ≤ 31 → n ≡ 0
day_small n h lo hi = omega arith

parts_zero :
    (time : ℕ)
    → time / ticks_in_s / 86400 ≡ 0
    → time / ticks_in_s / 60 / 60 % 24 ≡ 0
    → time / ticks_in_s / 60 % 60 ≡ 0
    → time / ticks_in_s % 60 ≡ 0
    → time % ticks_in_s / ticks_in_ms ≡ 0
    → time < ticks_in_ms
parts_zero time d h m s ms = omega arith

-- A time of at least a millisecond and less than 2 ^ 15 days before 1601 does not have valid fields.
pub before_invalid :
    (time : ℕ)
    → ticks_in_ms ≤ time
    → time < 2 ^ 15 * ticks_in_day
    → ¬ IsValid (time_to_fields_before time)
unfolding time_to_fields_before
before_invalid time some_ms near v =
    let (h, m, s, ms) = v.time_in in
    let early : time < ticks_in_ms =
      parts_zero time
        (day_small (time / ticks_in_s / 86400) (omega arith) v.day_in.0
          (omega (arith, v.day_in.1, days_in_month-le (time_to_fields_before time))))
        (minus_small (time / ticks_in_s / 60 / 60 % 24) 24 (omega arith) (omega arith) h)
        (minus_small (time / ticks_in_s / 60 % 60) 60 (omega arith) (omega arith) m)
        (minus_small (time / ticks_in_s % 60) 60 (omega arith) (omega arith) s)
        (minus_small (time % ticks_in_s / ticks_in_ms) 1000 (omega arith) (omega arith) ms) in
    omega (arith, early, some_ms)
