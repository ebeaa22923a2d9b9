-- ===== src/CString/Bounded.antt =====
-- wcsncat_s and _wcsnset_s of src/std/wchar.cpp.
use crescent.Common.{
  ℕ, zero, suc, ◌+◌, ◌-◌, ◌^◌, ◌<◌, ◌≡◌, refl, arith, true, Option, none, some, List, [], ◌∷◌, ltb,
  leb, ◌==◌, if◌then◌else◌, ◌>>=◌, length,
}
use crescent.Rtl.Text.{put, strlen}
use crescent.HzView.{HzView}
use crescent.CString.{einval, erange, fail_empty, copy_units, find_end, strnlen}

-- The copy of `to_copy` characters behind the text of the destination, and the terminator.
abbrev pub append_units : List ℕ → ℕ → ℕ → List ℕ → Option (Option (List ℕ) × ℕ)
append_units dest dest_len to_copy src = do
  copied ← copy_units dest_len to_copy src dest
  ended ← put (dest_len + to_copy) 0 copied
  some (some ended, 0)

-- What `wcsncat_s` does behind the loop.
pub append_bounded : HzView → List ℕ → ℕ → List ℕ → ℕ → Option ℕ → Option (Option (List ℕ) × ℕ)
append_bounded hz dest dest_size src count none = some (some dest, einval)
append_bounded hz dest dest_size src count (some dest_len) =
    if count == 2 ^ 64 - 1
    then (do
      len ← strlen src
      append_units dest dest_len (hz.lesser (dest_size - dest_len - 1) len) src)
    else (do
      len ← strnlen src count
      (if leb (dest_len + len + 1) dest_size
          then append_units dest dest_len len src
          else fail_empty erange dest))

-- `wcsncat_s`; a count of -1 is the largest `size_t`.
pub wcsncat_s : HzView → Option (List ℕ) → ℕ → Option (List ℕ) → ℕ → Option (Option (List ℕ) × ℕ)
unfolding append_bounded
wcsncat_s hz none dest_size src count = some (none, einval)
wcsncat_s hz (some dest) dest_size none count = some (some dest, einval)
wcsncat_s hz (some dest) dest_size (some src) count =
    find_end dest dest_size >>= append_bounded hz dest dest_size src count

-- The loop of `_wcsnset_s` over `len` characters.
pub fill_units : List ℕ → ℕ → ℕ → Option (List ℕ)
fill_units dest ch zero = some dest
fill_units [] ch (suc len) = none
fill_units (y ∷ dest) ch (suc len) = do rest ← fill_units dest ch len; some (ch ∷ rest)

-- `_wcsnset_s`.
pub wcsnset_s : Option (List ℕ) → ℕ → ℕ → ℕ → Option (Option (List ℕ) × ℕ)
unfolding fill_units
wcsnset_s none dest_size ch count = some (none, einval)
wcsnset_s (some dest) dest_size ch count = do
  len ← strnlen dest dest_size
  filled ← fill_units dest ch (if ltb len count then count else len)
  some (some filled, 0)

fill_units_fails : (dest : List ℕ) (ch n : ℕ) → length dest < n → fill_units dest ch n ≡ none
unfolding fill_units
fill_units_fails dest ch zero h = absurd (omega arith)
fill_units_fails [] ch (suc n) h = refl
fill_units_fails (y ∷ dest) ch (suc n) h = rw (fill_units_fails dest ch n (omega arith)) refl

-- `_wcsnset_s` writes past memory that is as long as the size says if the count is larger.
pub wcsnset_s_overruns :
    (dest : List ℕ) (size ch count len : ℕ)
    → strnlen dest size ≡ some len
    → len < count
    → length dest < count
    → wcsnset_s (some dest) size ch count ≡ none
unfolding wcsnset_s
wcsnset_s_overruns dest size ch count len e more h =
    let longer : ltb len count ≡ true = ground arith in
    rw (e, longer, fill_units_fails dest ch count h) refl
