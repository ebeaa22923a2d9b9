-- ===== src/Rtl/Convert/Tests.antt =====
-- The conversions of strings at concrete inputs.
use mathlib.Core.Option.{some-injective}
use crescent.Common.{
  ℕ, ap, ◌≤◌, ◌≡◌, refl, arith, true, Option, some, List, [], ◌∷◌, length, replicate,
  length-replicate,
}
use crescent.Rtl.Text.{Text, chars, status_success, put}
use crescent.Rtl.Convert.{ansi_to_unicode, unicode_to_ansi, fill_text, convert}
use crescent.Rtl.Convert.Laws.{Converts, ansi_to_unicode_lem, ansi_round_trip}

-- An allocator that always finds zeroed memory.
abbrev zeroed : ℕ → Option (List ℕ)
zeroed n = some (replicate n 0)

zeroed_large : (n : ℕ) (m : List ℕ) → zeroed n ≡ some m → n ≤ length m
zeroed_large n m e =
    omega (
      arith,
      length-replicate {A = ℕ} n 0,
      ap (length {A = ℕ}) (some-injective (replicate n 0) m e),
    )

-- The byte 200 is a negative `char`.
abbrev two_bytes : Text
two_bytes = record { length = 2; maximum_length = 3; buffer = 65 ∷ 200 ∷ 0 ∷ [] }

abbrev nothing : Text
nothing = record { length = 0; maximum_length = 0; buffer = [] }

ansi_to_unicode_example :
    Converts zeroed 6 2 2
      (65 ∷ 0xFFC8 ∷ [])
      nothing
      true
      (ansi_to_unicode zeroed nothing two_bytes true)
ansi_to_unicode_example =
    ansi_to_unicode_lem zeroed nothing two_bytes true (λ n m e. omega (arith, zeroed_large n m e))
      (omega arith) (omega arith)

abbrev two_units : Text
two_units = record { length = 4; maximum_length = 6; buffer = 65 ∷ 0xFFC8 ∷ 0 ∷ 0 ∷ 0 ∷ 0 ∷ [] }

abbrev two_bytes_again : Text
two_bytes_again = record { length = 2; maximum_length = 3; buffer = 65 ∷ 200 ∷ 0 ∷ [] }

widens : ansi_to_unicode zeroed nothing two_bytes true ≡ some (two_units, status_success)
unfolding ansi_to_unicode fill_text convert put
widens = refl

narrows : unicode_to_ansi zeroed nothing two_units true ≡ some (two_bytes_again, status_success)
unfolding unicode_to_ansi fill_text convert put
narrows = refl

ansi_round_trip_example :
    (chars two_bytes_again ≡ chars two_bytes) × (two_bytes_again.length ≡ two_bytes.length)
ansi_round_trip_example =
    ansi_round_trip zeroed zeroed (λ n m e. omega (arith, zeroed_large n m e)) zeroed_large
      two_bytes nothing nothing two_units two_bytes_again true true (omega arith) (omega arith)
      (omega arith, (omega arith, (omega arith, tt))) (omega arith) (omega arith) widens narrows
