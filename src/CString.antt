-- ===== src/CString.antt =====
-- The strings of src/std/cstring.cpp and wchar.cpp, which end with a terminator. A string is the
-- memory that its pointer reaches, as characters; a null pointer is `none` as an argument. A result
-- of `none` is an access past the memory. The functions for `char` and for WCHAR that share their
-- text share a definition here.
pub mod Strings
pub mod Order
pub mod Writes
pub mod Narrow
pub mod Bounded
mod Tests
use crescent.Common.{
  ℕ, zero, suc, ◌+◌, ◌-◌, ◌*◌, ◌/◌, ◌%◌, ◌^◌, Bool, true, false, not, ◌&&◌, ◌||◌, Option, none,
  some, List, [], ◌∷◌, ltb, leb, ◌==◌, if◌then◌else◌, ◌>>=◌, sub32, get_elem?,
}
use crescent.Rtl.Text.{put, strlen}
use crescent.HzView.{HzView}

abbrev pub einval : ℕ
einval = 22

abbrev pub erange : ℕ
erange = 34

abbrev pub struncate : ℕ
struncate = 80

-- `strnlen` and `wcsnlen`.
pub strnlen : List ℕ → ℕ → Option ℕ
strnlen l zero = some 0
strnlen [] (suc max) = none
strnlen (x ∷ l) (suc max) =
    let rest = strnlen l max in if x == 0 then some 0 else (do n ← rest; some (suc n))

-- `strcmp`, `_stricmp`, `wcscmp` and `_wcsicmp`; `value` is what they subtract, as an `int`.
pub strcmp : (ℕ → ℕ) → List ℕ → List ℕ → Option ℕ
strcmp value (x ∷ a) (y ∷ b) =
    let rest = strcmp value a b in
    if not (sub32 (value x) (value y) == 0) || x == 0
    then some (sub32 (value x) (value y))
    else rest
strcmp value [] b = none
strcmp value (x ∷ a) [] = none

-- `strncmp`, `wcsncmp` and `_wcsnicmp`.
pub strncmp : (ℕ → ℕ) → List ℕ → List ℕ → ℕ → Option ℕ
strncmp value a b zero = some 0
strncmp value (x ∷ a) (y ∷ b) (suc count) =
    let rest = strncmp value a b count in
    if not (sub32 (value x) (value y) == 0) || x == 0
    then some (sub32 (value x) (value y))
    else rest
strncmp value [] b (suc count) = none
strncmp value (x ∷ a) [] (suc count) = none

-- `wcschr`: the index of the character.
pub wcschr : List ℕ → ℕ → Option (Option ℕ)
wcschr [] ch = none
wcschr (x ∷ str) ch =
    let rest = wcschr str ch in
    if x == 0
    then some none
    else if x == ch
    then some (some 0)
    else (do found ← rest; some (found >>= (λ i. some (suc i))))

-- The loop of `wcsrchr`, from the end.
pub last_index : List ℕ → ℕ → ℕ → Option ℕ
last_index str ch zero = none
last_index str ch (suc len) =
    let rest = last_index str ch len in
    elim (get_elem? str len) [ none ↦ rest | some x ↦ if x == ch then some len else rest ]

-- `wcsrchr`.
pub wcsrchr : List ℕ → ℕ → Option (Option ℕ)
unfolding last_index
wcsrchr str ch = do len ← strlen str; some (last_index str ch len)

-- `to_lower`.
abbrev pub to_lower : ℕ → ℕ
to_lower c = if leb 65 c && leb c 90 then (if c / 32 % 2 == 1 then c else c + 32) else c

-- `_wcslwr`.
pub wcslwr : List ℕ → Option (List ℕ)
wcslwr [] = none
wcslwr (x ∷ str) =
    let rest = wcslwr str in
    if x == 0 then some (x ∷ str) else (do lowered ← rest; some (to_lower x ∷ lowered))

-- `memcpy` of `n` characters to index `i`.
pub copy_units : ℕ → ℕ → List ℕ → List ℕ → Option (List ℕ)
copy_units (suc i) n src [] = none
copy_units (suc i) n src (y ∷ dest) = do rest ← copy_units i n src dest; some (y ∷ rest)
copy_units zero zero src dest = some dest
copy_units zero (suc n) (x ∷ src) (y ∷ dest) = do rest ← copy_units zero n src dest; some (x ∷ rest)
copy_units zero (suc n) src dest = none

abbrev pub fail_empty : ℕ → List ℕ → Option (Option (List ℕ) × ℕ)
fail_empty status dest = do emptied ← put 0 0 dest; some (some emptied, status)

-- `strcpy_s` and `wcscpy_s`.
pub strcpy_s : Option (List ℕ) → ℕ → Option (List ℕ) → Option (Option (List ℕ) × ℕ)
unfolding copy_units
strcpy_s none dest_size src = some (none, einval)
strcpy_s (some dest) dest_size none = fail_empty einval dest
strcpy_s (some dest) dest_size (some src) = do
  len ← strlen src
  (if leb (len + 1) dest_size
      then (do copied ← copy_units 0 (len + 1) src dest; some (some copied, 0))
      else fail_empty einval dest)

-- The loop of `strcat_s` to the end of the destination: `some none` if the size is reached.
pub find_end : List ℕ → ℕ → Option (Option ℕ)
find_end dest zero = some none
find_end [] (suc size) = none
find_end (x ∷ dest) (suc size) =
    let rest = find_end dest size in
    if x == 0 then some (some 0) else (do found ← rest; some (found >>= (λ n. some (suc n))))

-- What `strcat_s` does behind the loop.
pub append_at : List ℕ → ℕ → List ℕ → Option ℕ → Option (Option (List ℕ) × ℕ)
unfolding copy_units
append_at dest dest_size src none = some (some dest, einval)
append_at dest dest_size src (some dest_len) = do
  len ← strlen src
  (if leb (dest_len + len + 1) dest_size
      then (do copied ← copy_units dest_len (len + 1) src dest; some (some copied, 0))
      else fail_empty einval dest)

-- `strcat_s` and `wcscat_s`.
pub strcat_s : Option (List ℕ) → ℕ → Option (List ℕ) → Option (Option (List ℕ) × ℕ)
unfolding find_end append_at
strcat_s none dest_size src = some (none, einval)
strcat_s (some dest) dest_size none = fail_empty einval dest
strcat_s (some dest) dest_size (some src) = find_end dest dest_size >>= append_at dest dest_size src

-- The loop of `strncpy`: characters to `dest` from its start, then zeros for what is left of the
-- count. (`dest` is the memory from `dest[len]`.)
pub strncpy_at : List ℕ → List ℕ → ℕ → Option (List ℕ)
strncpy_at dest src zero = some dest
strncpy_at (y ∷ dest) (x ∷ src) (suc count) = do
  rest ← strncpy_at dest (if x == 0 then x ∷ src else src) count
  some (x ∷ rest)
strncpy_at [] src (suc count) = none
strncpy_at (y ∷ dest) [] (suc count) = none

-- `strncpy`, which starts at the terminator that `strlen(dest)` finds.
pub strncpy : List ℕ → List ℕ → ℕ → Option (List ℕ)
unfolding strncpy_at
strncpy [] src count = none
strncpy (y ∷ dest) src count =
    let rest = strncpy dest src count in
    if y == 0 then strncpy_at (y ∷ dest) src count else (do written ← rest; some (y ∷ written))

-- `wcsncpy_s`; a count of -1 is the largest `size_t`.
pub wcsncpy_s : HzView → Option (List ℕ) → ℕ → Option (List ℕ) → ℕ → Option (Option (List ℕ) × ℕ)
unfolding copy_units strnlen
wcsncpy_s hz none dest_size src count = some (none, einval)
wcsncpy_s hz (some dest) zero src count = some (some dest, einval)
wcsncpy_s hz (some dest) (suc size) none count = fail_empty einval dest
wcsncpy_s hz (some dest) (suc size) (some src) count =
    if count == 2 ^ 64 - 1
    then (do
      len ← strlen src
      (let to_copy = hz.lesser (suc size) ((len + 2 ^ 64 - 1) % 2 ^ 64) in
          do
            copied ← copy_units 0 to_copy src dest
            ended ← put to_copy 0 copied
            some (some ended, struncate)))
    else (do
      len ← strnlen src count
      (if leb (len + 1) (suc size)
          then (do
            copied ← copy_units 0 len src dest
            ended ← put len 0 copied
            some (some ended, 0))
          else fail_empty erange dest))
