-- ===== src/Rtl/Bitmap.antt =====
-- The queries on an RTL_BITMAP of src/std/rtl.cpp. The buffer is its words of 32 bits; the bits
-- behind the buffer, which no query on a well-formed bitmap reads, are clear.
pub mod Runs
mod Tests
use crescent.Common.{
  ℕ, zero, suc, ◌+◌, ◌-◌, ◌/◌, ◌%◌, ◌^◌, Bool, true, false, not, ◌&&◌, ◌||◌, Option, none, some,
  List, ltb, leb, ◌==◌, if◌then◌else◌, get_or, add32,
}

-- `RTL_BITMAP`.
pub record Bitmap : Type 0 where
  pub size : ℕ
  pub buffer : List ℕ

-- `ptr[i / 32] & 1U << i % 32`.
pub bit_at : Bitmap → ℕ → Bool
bit_at m i = get_or m.buffer (i / 32) 0 / 2 ^ (i % 32) % 2 == 1

-- The loops of `RtlAreBitsSet` and `RtlAreBitsClear`, over `n` bits from `i`.
pub all_bits : Bitmap → Bool → ℕ → ℕ → Bool
unfolding bit_at
all_bits m value zero i = true
all_bits m value (suc n) i =
    let rest = all_bits m value n (i + 1) in if bit_at m i then value && rest else not value && rest

-- The test before the loops, in ULONG arithmetic.
abbrev pub out_of_range : Bitmap → ℕ → ℕ → Bool
out_of_range m start length = length == 0 || leb m.size start || ltb m.size (add32 start length)

-- `RtlAreBitsSet`.
pub are_bits_set : Bitmap → ℕ → ℕ → Bool
unfolding all_bits
are_bits_set m start length =
    if out_of_range m start length then false else all_bits m true length start

-- `RtlAreBitsClear`.
pub are_bits_clear : Bitmap → ℕ → ℕ → Bool
unfolding all_bits
are_bits_clear m start length =
    if out_of_range m start length then false else all_bits m false length start

-- The loops of `RtlNumberOfSetBits` and `RtlNumberOfClearBits`.
pub count_bits : Bitmap → Bool → ℕ → ℕ → ℕ
unfolding bit_at
count_bits m value zero i = 0
count_bits m value (suc n) i =
    let rest = count_bits m value n (i + 1) in
    if bit_at m i then (if value then suc rest else rest) else (if value then rest else suc rest)

-- `RtlNumberOfSetBits`.
pub number_of_set_bits : Bitmap → ℕ
unfolding count_bits
number_of_set_bits m = count_bits m true m.size 0

-- `RtlNumberOfClearBits`.
pub number_of_clear_bits : Bitmap → ℕ
unfolding count_bits
number_of_clear_bits m = count_bits m false m.size 0

-- The inner loop of `RtlFindNextForwardRunClear`: the first of `n` bits behind `i` that is set.
pub find_set : Bitmap → ℕ → ℕ → ℕ → Option ℕ
unfolding bit_at
find_set m index zero i = none
find_set m index (suc n) i =
    let rest = find_set m index n (i + 1) in if bit_at m (index + i) then some i else rest

-- `RtlFindNextForwardRunClear`: the start that is stored, if one is, and the length that is
-- returned. The result is `none` if `fuel` rounds of the loop do not end it.
pub find_next_run : ℕ → Bitmap → ℕ → Option (Option ℕ × ℕ)
unfolding find_set
find_next_run zero m index = none
find_next_run (suc fuel) m index =
    if ltb index m.size
    then elim (find_set m index (m.size - index) 0) [
      | none ↦ find_next_run fuel m index
      | some i ↦ elim (i == 0) [
        | true ↦ find_next_run fuel m (index + i + 1)
        | false ↦ some (some (index + i + 1), i)
      ]
    ]
    else some (none, 0)
