-- ===== src/Rtl/Convert.antt =====
-- RtlAnsiStringToUnicodeString and RtlUnicodeStringToAnsiString of src/std/rtl.cpp. `kmalloc` is a
-- parameter: the memory that a call for a number of bytes finds, as characters, or none.
pub mod Laws
mod Tests
use crescent.Common.{
  ℕ, zero, suc, ◌+◌, ◌-◌, ◌*◌, ◌/◌, ◌%◌, ◌^◌, Bool, true, false, Option, none, some, List, [], ◌∷◌,
  ltb, if◌then◌else◌, ◌>>=◌,
}
use crescent.Rtl.Text.{Text, put, status_success, status_buffer_overflow, status_no_memory}

-- The loops that convert each character.
pub convert : (ℕ → ℕ) → ℕ → List ℕ → List ℕ → Option (List ℕ)
convert f zero src dest = some dest
convert f (suc n) (x ∷ src) (y ∷ dest) = do rest ← convert f n src dest; some (f x ∷ rest)
convert f (suc n) src dest = none

-- A `char`, which is signed, as a WCHAR.
abbrev pub widen : ℕ → ℕ
widen c = if ltb c 128 then c else c + 2 ^ 16 - 256

abbrev pub narrow : ℕ → ℕ
narrow c = c % 256

-- The loop, the terminator and the length; `width` is the bytes of a character.
pub fill_text : (ℕ → ℕ) → ℕ → ℕ → List ℕ → Text → Option (Text × ℕ)
unfolding convert
fill_text f width len src dest = do
  converted ← convert f len src dest.buffer
  buffer ← put len 0 converted
  some (record dest { length = len * width % 2 ^ 16; buffer = buffer }, status_success)

module _ (kmalloc : ℕ → Option (List ℕ)) where
  -- `RtlAnsiStringToUnicodeString`.
  pub ansi_to_unicode : Text → Text → Bool → Option (Text × ℕ)
  unfolding fill_text
  ansi_to_unicode dest src allocate_dest =
      let size = (src.length + 1) * 2 in
      if allocate_dest
      then elim (kmalloc size) [
        | none ↦ some (record dest { buffer = [] }, status_no_memory)
        | some memory ↦
            fill_text widen 2 src.length src.buffer
              (record dest { buffer = memory; maximum_length = size % 2 ^ 16 })
      ]
      else if ltb dest.maximum_length size
      then some (dest, status_buffer_overflow)
      else fill_text widen 2 src.length src.buffer dest

  -- `RtlUnicodeStringToAnsiString`.
  pub unicode_to_ansi : Text → Text → Bool → Option (Text × ℕ)
  unfolding fill_text
  unicode_to_ansi dest src allocate_dest =
      let len = src.length / 2 in
      if allocate_dest
      then elim (kmalloc (len + 1)) [
        | none ↦ some (record dest { buffer = [] }, status_no_memory)
        | some memory ↦
            fill_text narrow 1 len src.buffer
              (record dest { buffer = memory; maximum_length = (len + 1) % 2 ^ 16 })
      ]
      else if ltb dest.maximum_length (len + 1)
      then some (dest, status_buffer_overflow)
      else fill_text narrow 1 len src.buffer dest
