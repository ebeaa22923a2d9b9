-- ===== src/Rtl/Compare.antt =====
-- The comparisons of strings of src/std/rtl.cpp, and the conversions of case. A comparison that
-- reads past a buffer is `none`; a LONG is its 32 bits.
pub mod Order
pub mod Reference
pub mod Fold
mod Tests
use crescent.Common.{
  ℕ, zero, suc, ◌+◌, ◌-◌, ◌*◌, ◌/◌, ◌%◌, ◌^◌, Bool, true, false, ◌&&◌, Option, none, some, List, [],
  ◌∷◌, ltb, leb, ◌==◌, if◌then◌else◌, sub32,
}
use crescent.Rtl.Text.{Text}

abbrev pub clear_bit5 : ℕ → ℕ
clear_bit5 c = if c / 32 % 2 == 1 then c - 32 else c

abbrev pub set_bit5 : ℕ → ℕ
set_bit5 c = if c / 32 % 2 == 1 then c else c + 32

-- `RtlUpcaseUnicodeChar`, and the `to_upper` that each comparison declares.
unfoldable pub upcase : ℕ → ℕ
upcase c = if leb 97 c && leb c 122 then clear_bit5 c else c

-- `RtlDowncaseUnicodeChar`.
pub downcase : ℕ → ℕ
downcase c = if leb 65 c && leb c 90 then set_bit5 c else c

-- The loops of the tests for equality over `n` characters.
pub same : (ℕ → ℕ) → ℕ → List ℕ → List ℕ → Option Bool
same fold zero a b = some true
same fold (suc n) (x ∷ a) (y ∷ b) =
    let rest = same fold n a b in if fold x == fold y then rest else some false
same fold (suc n) a b = none

abbrev pub folding : Bool → ℕ → ℕ
unfolding upcase
folding case_insensitive c = if case_insensitive then upcase c else c

-- `RtlEqualUnicodeString`.
pub equal_unicode : Text → Text → Bool → Option Bool
unfolding same folding
equal_unicode a b case_insensitive =
    if a.length == b.length
    then same (folding case_insensitive) (a.length / 2) a.buffer b.buffer
    else some false

-- `RtlEqualString`; the test for a small letter has the same outcome for a signed `char`.
pub equal_ansi : Text → Text → Bool → Option Bool
unfolding same folding
equal_ansi a b case_insensitive =
    if a.length == b.length
    then same (folding case_insensitive) a.length a.buffer b.buffer
    else some false

-- `RtlPrefixUnicodeString`.
pub prefix_unicode : Text → Text → Bool → Option Bool
unfolding same folding
prefix_unicode a b case_insensitive =
    if ltb b.length a.length
    then some false
    else same (folding case_insensitive) (a.length / 2) a.buffer b.buffer

-- The loops of the comparisons.
pub difference : (ℕ → ℕ) → ℕ → List ℕ → List ℕ → Option ℕ
difference value zero a b = some 0
difference value (suc n) (x ∷ a) (y ∷ b) =
    let rest = difference value n a b in
    if sub32 (value x) (value y) == 0 then rest else some (sub32 (value x) (value y))
difference value (suc n) a b = none

-- A `char` as an `int`.
abbrev pub sign_extend : ℕ → ℕ
sign_extend c = if ltb c 128 then c else c + 2 ^ 32 - 256

-- `RtlCompareUnicodeString`.
pub compare_unicode : Text → Text → Bool → Option ℕ
unfolding difference folding
compare_unicode a b case_insensitive =
    if ltb a.length b.length
    then some (sub32 0 1)
    else if ltb b.length a.length
    then some 1
    else difference (folding case_insensitive) (a.length / 2) a.buffer b.buffer

-- `RtlCompareString`.
pub compare_ansi : Text → Text → Bool → Option ℕ
unfolding difference folding
compare_ansi a b case_insensitive =
    if ltb a.length b.length
    then some (sub32 0 1)
    else if ltb b.length a.length
    then some 1
    else difference (λ c. sign_extend (folding case_insensitive c)) a.length a.buffer b.buffer
