-- ===== src/Rtl/Number.antt =====
-- RtlIntegerToUnicodeString, RtlInt64ToUnicodeString and RtlUnicodeStringToInteger of
-- src/std/rtl.cpp. A result of `none` is a trap: a division by 0, or an access past a buffer.
pub mod Digits
pub mod RoundTrip
mod Tests
use crescent.Common.{
  ℕ, zero, suc, ◌+◌, ◌-◌, ◌*◌, ◌/◌, ◌%◌, ◌^◌, Bool, true, false, not, ◌&&◌, ◌||◌, Option, none,
  some, List, [], ◌∷◌, ltb, leb, ◌==◌, if◌then◌else◌, ◌>>=◌, take, drop, length, get_or, add32,
  sub32,
}
use crescent.HzView.{HzView}
use crescent.Rtl.Text.{
  Text, units, copy_bytes, put, status_success, status_buffer_overflow, status_invalid_parameter,
}

-- `CHARS`.
abbrev pub digit_chars : List ℕ
digit_chars = 48 ∷ 49 ∷ 50 ∷ 51 ∷ 52 ∷ 53 ∷ 54 ∷ 55 ∷ 56 ∷ 57 ∷ 65 ∷ 66 ∷ 67 ∷ 68 ∷ 69 ∷ 70 ∷ []

-- The loop that writes the digits before `written`, with the number of characters that the buffer
-- still has room for.
pub digits : ℕ → ℕ → ℕ → List ℕ → Option (List ℕ)
digits zero base value written = none
digits (suc room) base value written =
    let ptr = get_or digit_chars (value % base) 0 ∷ written in
    let rest = digits room base (value / base) ptr in if value / base == 0 then some ptr else rest

abbrev pub known_base : ℕ → Bool
known_base base = base == 0 || base == 2 || base == 8 || base == 10 || base == 16

-- The digits in `buffer[64]`, where a base of 0 divides by it.
pub to_digits : ℕ → ℕ → Option (List ℕ)
unfolding digits
to_digits value base = if base == 0 then none else digits 64 base value []

-- `RtlIntegerToUnicodeString`.
pub integer_to_text : ℕ → ℕ → Text → Option (Text × ℕ)
unfolding to_digits
integer_to_text value base string =
    if not (known_base base) then some (string, status_invalid_parameter) else (do
      ptr ← to_digits value base
      (let count = length ptr in
          if ltb string.maximum_length ((count + 1) * 2)
          then some (string, status_buffer_overflow)
          else (do
            copied ← copy_bytes (count * 2) ptr string.buffer
            buffer ← put count 0 copied
            some (record string { length = count * 2; buffer = buffer }, status_success))))

-- `RtlInt64ToUnicodeString`.
pub int64_to_text : ℕ → ℕ → Text → Option (Text × ℕ)
unfolding to_digits
int64_to_text value base string =
    if not (known_base base) then some (string, status_invalid_parameter) else (do
      ptr ← to_digits value base
      (let count = length ptr in
          if ltb string.maximum_length (count * 2)
          then some (string, status_buffer_overflow)
          else (do
            copied ← copy_bytes (count * 2) ptr string.buffer
            buffer ←
                (if leb (count * 2 + 2) string.maximum_length
                  then put count 0 copied
                  else some copied)
            some (record string { length = count * 2; buffer = buffer }, status_success))))

-- `to_upper` of the same function: bit 5 cleared for a small letter.
abbrev pub to_upper : ℕ → ℕ
to_upper c = if leb 97 c && leb c 122 && c / 32 % 2 == 1 then c - 32 else c

abbrev pub is_space : ℕ → Bool
is_space c = c == 32 || c == 13 || c == 10 || c == 9 || c == 12

-- The loop over the spaces in front.
pub skip_spaces : List ℕ → List ℕ
skip_spaces [] = []
skip_spaces (c ∷ view) = let rest = skip_spaces view in if is_space c then rest else c ∷ view

-- `res *= base` and `res += digit`.
abbrev pub shift : ℕ → ℕ → ℕ → ℕ
shift base res digit = add32 (res * base % 2 ^ 32) digit

-- The loop for a base of at most 10.
pub parse_low : ℕ → List ℕ → ℕ → ℕ
parse_low base [] res = res
parse_low base (c ∷ view) res =
    let rest = parse_low base view (shift base res (c - 48)) in
    if ltb c 48 || ltb (get_or digit_chars (base - 1) 0) c then res else rest

-- The loop for a larger base.
pub parse_high : ℕ → List ℕ → ℕ → ℕ
parse_high base [] res = res
parse_high base (c ∷ view) res =
    let number = parse_high base view (shift base res (c - 48)) in
    let letter = parse_high base view (shift base res (to_upper c - 65 + 10)) in
    if leb 48 c && leb c 57
    then number
    else if leb 65 (to_upper c) && leb (to_upper c) 70
    then letter
    else res

-- The part behind the sign.
pub parse_digits : ℕ → List ℕ → ℕ
unfolding parse_low parse_high
parse_digits base view = if leb base 10 then parse_low base view 0 else parse_high base view 0

-- The part behind the prefix.
pub parse_signed : ℕ → List ℕ → ℕ
unfolding skip_spaces parse_digits
parse_signed base view = elim (skip_spaces view) [
  | [] ↦ 0
  | c ∷ rest ↦
      if c == 43
      then parse_digits base rest
      else if c == 45
      then sub32 0 (parse_digits base rest)
      else parse_digits base (c ∷ rest)
]

module _ (hz : HzView) where
  open hz use {starts_with, substr}

  -- The base that a prefix names, and the text behind it.
  pub find_base : List ℕ → ℕ → List ℕ × ℕ
  find_base view base =
      if not (base == 0)
      then (view, base)
      else if starts_with view (48 ∷ 120 ∷ []) || starts_with view (48 ∷ 88 ∷ [])
      then (substr view 2, 16)
      else if starts_with view (48 ∷ 111 ∷ []) || starts_with view (48 ∷ 79 ∷ [])
      then (substr view 2, 8)
      else if starts_with view (48 ∷ 98 ∷ []) || starts_with view (48 ∷ 66 ∷ [])
      then (substr view 2, 2)
      else (view, 10)

  -- `RtlUnicodeStringToInteger`: the value that is stored, if one is, and the status. A null
  -- string is `none`, a null buffer is empty memory.
  pub text_to_integer : Option Text → ℕ → Option ℕ × ℕ
  unfolding find_base parse_signed
  text_to_integer none base = (none, status_invalid_parameter)
  text_to_integer (some str) base =
      if leb str.length 1 || get_or str.buffer 0 0 == 0
      then (none, status_invalid_parameter)
      else (let (view, found) = find_base (units str) base in
          (some (parse_signed found view), status_success))
