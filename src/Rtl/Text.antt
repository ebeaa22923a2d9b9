-- ===== src/Rtl/Text.antt =====
-- The counted strings of src/std/rtl.cpp, UNICODE_STRING and ANSI_STRING: initialization, copy and
-- concatenation. The buffer is the memory that the pointer reaches, as characters; lengths are in
-- bytes, which are two for each character of a UNICODE_STRING. An access past the memory is `none`.
pub mod Memory
pub mod Access
pub mod Places
pub mod Copy
pub mod Append
mod Tests
use crescent.Common.{
  ℕ, zero, suc, ◌+◌, ◌*◌, ◌/◌, ◌%◌, ◌^◌, Bool, true, false, Option, none, some, List, [], ◌∷◌, ltb,
  leb, ◌==◌, if◌then◌else◌, ◌>>=◌, take, length,
}
use crescent.HzView.{HzView}
unfoldable pub use Memory.{copy_bytes, copy_at, put, strlen}

-- `UNICODE_STRING`, `ANSI_STRING` and `STRING`.
pub record Text : Type 0 where
  pub length : ℕ
  pub maximum_length : ℕ
  pub buffer : List ℕ

-- The characters of a UNICODE_STRING.
abbrev pub units : Text → List ℕ
units s = take (s.length / 2) s.buffer

-- The characters of an ANSI_STRING.
abbrev pub chars : Text → List ℕ
chars s = take s.length s.buffer

abbrev pub status_success : ℕ
status_success = 0

abbrev pub status_buffer_too_small : ℕ
status_buffer_too_small = 0xC0000023

abbrev pub status_buffer_overflow : ℕ
status_buffer_overflow = 0x80000005

abbrev pub status_no_memory : ℕ
status_no_memory = 0xC0000017

abbrev pub status_invalid_parameter : ℕ
status_invalid_parameter = 0xC000000D

-- `RtlInitAnsiString` and `RtlInitString`; the source is `none` for a null pointer.
pub init_ansi : Text → Option (List ℕ) → Option Text
init_ansi dest none = some (record dest { length = 0; maximum_length = 0 })
init_ansi dest (some src) = do
  len ← strlen src
  some (record { length = len % 2 ^ 16; maximum_length = (len + 1) % 2 ^ 16; buffer = src })

-- `RtlInitUnicodeString`.
pub init_unicode : Text → Option (List ℕ) → Option Text
init_unicode dest none = some (record dest { length = 0; maximum_length = 0 })
init_unicode dest (some src) = do
  len ← strlen src
  some (record { length = len * 2 % 2 ^ 16; maximum_length = (len + 1) * 2 % 2 ^ 16; buffer = src })

-- The terminator that the functions write if it fits.
abbrev pub terminate : Text → Option Text
terminate dest =
    if leb (dest.length + 2) dest.maximum_length
    then (do buffer ← put (dest.length / 2) 0 dest.buffer; some (record dest { buffer = buffer }))
    else some dest

-- `RtlCopyUnicodeString`; the terminator goes behind the whole source.
pub copy : HzView → Text → Option Text → Option Text
copy hz dest none = some (record dest { length = 0 })
copy hz dest (some src) =
    let to_copy = hz.lesser src.length dest.maximum_length in
    do
      copied ← copy_bytes to_copy src.buffer dest.buffer
      buffer ←
          (if leb (src.length + 2) dest.maximum_length
            then put (src.length / 2) 0 copied
            else some copied)
      some (record dest { length = to_copy; buffer = buffer })

-- `RtlAppendUnicodeStringToString`.
pub append_text : Text → Text → Option (Text × ℕ)
append_text dest src =
    if ltb dest.maximum_length (dest.length + src.length)
    then some (dest, status_buffer_too_small)
    else (do
      buffer ← copy_at dest.length src.length src.buffer dest.buffer
      dest' ←
          terminate (record dest { length = (dest.length + src.length) % 2 ^ 16; buffer = buffer })
      some (dest', status_success))

-- `RtlAppendUnicodeToString`.
pub append_wide : Text → List ℕ → Option (Text × ℕ)
append_wide dest src = do
  len ← strlen src
  (if ltb dest.maximum_length (dest.length + len * 2)
      then some (dest, status_buffer_too_small)
      else (do
        buffer ← copy_at dest.length (len * 2) src dest.buffer
        dest' ← terminate (record dest { buffer = buffer })
        some (dest', status_success)))
