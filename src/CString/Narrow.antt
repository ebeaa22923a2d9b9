-- ===== src/CString/Narrow.antt =====
-- mbstowcs and wcstombs of src/std/cstring.cpp and wchar.cpp, between 7-bit characters of the two
-- widths, and the comparisons of memory. A failed assertion, and an access past the memory, is
-- `none`.
use crescent.Common.{
  ℕ, zero, suc, ◌-◌, ◌^◌, ◌≤◌, ◌<◌, ◌≡◌, refl, arith, false, Option, none, some, List, [], ◌∷◌, ltb,
  ◌==◌, if◌then◌else◌, ◌>>=◌, sub32, length,
}
use crescent.CString.Strings.{IsText}

-- The loop that both functions share, with a destination: its memory, and the characters written.
pub narrow_into : List ℕ → List ℕ → ℕ → Option (List ℕ × ℕ)
narrow_into dest src zero = some (dest, 0)
narrow_into (y ∷ dest) (c ∷ src) (suc len) =
    let rest = narrow_into dest src len in
    if ltb 0x7F c
    then none
    else if c == 0
    then some (c ∷ dest, 0)
    else (do r ← rest; some (c ∷ r.0, suc r.1))
narrow_into [] src (suc len) = none
narrow_into (y ∷ dest) [] (suc len) = none

-- The same loop without a destination, where the length is no limit.
pub narrow_length : List ℕ → Option ℕ
narrow_length [] = none
narrow_length (c ∷ src) =
    let rest = narrow_length src in
    if ltb 0x7F c then none else if c == 0 then some 0 else (do n ← rest; some (suc n))

-- `mbstowcs`; a null destination is `none`.
pub mbstowcs : Option (List ℕ) → List ℕ → ℕ → Option (Option (List ℕ) × ℕ)
unfolding narrow_into narrow_length
mbstowcs none src len = do n ← narrow_length src; some (none, n)
mbstowcs (some dest) src len = do r ← narrow_into dest src len; some (some r.0, r.1)

-- `wcstombs`; a result of -1 is the largest `size_t`.
pub wcstombs : Option (List ℕ) → Option (List ℕ) → ℕ → Option (Option (List ℕ) × ℕ)
unfolding mbstowcs
wcstombs dest none len = some (dest, 2 ^ 64 - 1)
wcstombs dest (some src) len =
    let rest = mbstowcs dest src len in if ltb 0x7FFFFFFF len then some (dest, 2 ^ 64 - 1) else rest

-- `memcmp`; the result is an `int`.
pub memcmp : List ℕ → List ℕ → ℕ → Option ℕ
memcmp a b zero = some 0
memcmp (x ∷ a) (y ∷ b) (suc size) =
    let rest = memcmp a b size in if sub32 x y == 0 then rest else some (sub32 x y)
memcmp [] b (suc size) = none
memcmp (x ∷ a) [] (suc size) = none

-- `RtlCompareMemory`: how many bytes are the same.
pub compare_memory : List ℕ → List ℕ → ℕ → Option ℕ
compare_memory a b zero = some 0
compare_memory (x ∷ a) (y ∷ b) (suc length) =
    let rest = compare_memory a b length in if x == y then (do n ← rest; some (suc n)) else some 0
compare_memory [] b (suc length) = none
compare_memory (x ∷ a) [] (suc length) = none

-- Characters of 7 bits.
abbrev pub AllNarrow : List ℕ → Type 0
AllNarrow [] = Unit {0}
AllNarrow (c ∷ s) = (c ≤ 0x7F) × AllNarrow s

-- The length that is asked for without a destination is enough for the text with its terminator:
-- with one more than it, the text arrives whole, and its length is returned again.
pub narrow_into_lem :
    (dest src s : List ℕ)
    → IsText src s
    → AllNarrow s
    → length s < length dest
    → (narrow_length src ≡ some (length s))
      × ((d : List ℕ) × (narrow_into dest src (suc (length s)) ≡ some (d, length s)) × IsText d s)
unfolding narrow_into narrow_length
narrow_into_lem dest [] s h n room = absurd h
narrow_into_lem [] (x ∷ src) s h n room = absurd (omega arith)
narrow_into_lem (y ∷ dest) (x ∷ src) [] h n room = rw h (refl, (0 ∷ dest, refl, refl))
narrow_into_lem (y ∷ dest) (x ∷ src) (c ∷ s) (e, ne, h) (small, n) room =
    let (asked, (d, found, text)) = narrow_into_lem dest src s h n (omega arith) in
    let low : ltb 0x7F c ≡ false = ground arith in
    rw e (rw (low, ne, asked) refl, (c ∷ d, rw (low, ne, found) refl, (refl, ne, text)))
