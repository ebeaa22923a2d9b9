-- ===== src/Rtl/Bitmap/Tests.antt =====
-- A bitmap of 40 bits, of which 0, 1 and 33 are set.
use crescent.Common.{ℕ, zero, suc, ◌+◌, ◌-◌, ◌<◌, ◌≡◌, ◌↔◌, refl, arith, true, false, none, [], ◌∷◌}
use crescent.Rtl.Bitmap.{
  Bitmap, bit_at, are_bits_set, are_bits_clear, number_of_set_bits, number_of_clear_bits,
  count_bits, find_next_run,
}
use crescent.Rtl.Bitmap.Runs.{InRange, are_bits_lem, number_of_bits, find_next_run_loops}

abbrev forty_bits : Bitmap
forty_bits = record { size = 40; buffer = 3 ∷ 2 ∷ [] }

are_bits_example :
    ((are_bits_set forty_bits 0 2 ≡ true)
      ↔ (InRange forty_bits 0 2 × ((j : ℕ) → j < 2 → bit_at forty_bits (0 + j) ≡ true)))
    × ((are_bits_clear forty_bits 0 2 ≡ true)
        ↔ (InRange forty_bits 0 2 × ((j : ℕ) → j < 2 → bit_at forty_bits (0 + j) ≡ false)))
are_bits_example = are_bits_lem forty_bits 0 2 (omega arith)

number_of_bits_example : number_of_set_bits forty_bits + number_of_clear_bits forty_bits ≡ 40
number_of_bits_example = number_of_bits forty_bits

three_set : number_of_set_bits forty_bits ≡ 3
unfolding number_of_set_bits count_bits bit_at
three_set = refl

abbrev clear_bits : Bitmap
clear_bits = record { size = 1; buffer = 0 ∷ [] }

first_clear : bit_at clear_bits 0 ≡ false
unfolding bit_at
first_clear = refl

all_clear : (j : ℕ) → j < 1 - 0 → bit_at clear_bits (0 + j) ≡ false
all_clear zero h = first_clear
all_clear (suc j) h = absurd (omega arith)

find_next_run_loops_example : find_next_run 1000 clear_bits 0 ≡ none
find_next_run_loops_example = find_next_run_loops 1000 clear_bits 0 (omega arith) all_clear
