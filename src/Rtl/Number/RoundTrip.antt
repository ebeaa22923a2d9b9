-- ===== src/Rtl/Number/RoundTrip.antt =====
-- A number that is written as text and read again.
use crescent.Common.{
  ℕ, zero, suc, ◌+◌, ◌*◌, ◌/◌, ◌^◌, ◌≤◌, ◌<◌, ◌≡◌, refl, ap, ◌∙◌, inl, inr, ◌⊎◌, arith, true, false,
  Option, some, List, [], ◌∷◌, ltb, leb, ◌==◌, length, take, get_or, Bool-cases, take-length,
}
use crescent.HzView.{HzView}
use crescent.Rtl.Text.{Text, units, copy_bytes, put, status_success, status_buffer_overflow}
use crescent.Rtl.Text.Access.{copy_lem, put_lem}
use crescent.Rtl.Number.{
  integer_to_text, text_to_integer, to_digits, known_base, parse_digits, parse_signed, skip_spaces,
  find_base,
}
use crescent.Rtl.Number.Digits.{IsBase, to_digits_lem, starts_with_digit}

skip_spaces_digit : (c : ℕ) (l : List ℕ) → 48 ≤ c → skip_spaces (c ∷ l) ≡ c ∷ l
unfolding skip_spaces
skip_spaces_digit c l h = ground arith

parse_unsigned :
    (base c : ℕ) (l : List ℕ)
    → skip_spaces (c ∷ l) ≡ c ∷ l
    → c == 43 ≡ false
    → c == 45 ≡ false
    → parse_signed base (c ∷ l) ≡ parse_digits base (c ∷ l)
unfolding parse_signed
parse_unsigned base c l solid plus minus = rw (solid, parse_signed, plus, minus) refl

-- A text that starts with a digit has no spaces and no sign to skip.
parse_signed_digit :
    (base : ℕ) (l : List ℕ) → starts_with_digit l ≡ true → parse_signed base l ≡ parse_digits base l
parse_signed_digit base [] h = cc
parse_signed_digit base (c ∷ l) h =
    parse_unsigned base c l (skip_spaces_digit c l (ground arith)) (ground arith) (ground arith)

first_unit :
    (n : ℕ) (buffer : List ℕ)
    → starts_with_digit (take n buffer) ≡ true
    → get_or buffer 0 0 == 0 ≡ false
first_unit zero buffer h = cc
first_unit (suc n) [] h = cc
first_unit (suc n) (c ∷ buffer) h = ground arith

base_nonzero : (base : ℕ) → IsBase base → base == 0 ≡ false
base_nonzero base b = ground arith

base_known : (base : ℕ) → IsBase base → known_base base ≡ true
base_known base (inl e) = rw e refl
base_known base (inr (inl e)) = rw e refl
base_known base (inr (inr (inl e))) = rw e refl
base_known base (inr (inr (inr e))) = rw e refl

module _ (hz : HzView) where
  -- A text that consists of digits is read as these digits in the given base.
  text_to_integer_lem :
      (s : Text) (base : ℕ)
      → IsBase base
      → 1 < s.length
      → starts_with_digit (units s) ≡ true
      → text_to_integer hz (some s) base ≡ (some (parse_digits base (units s)), status_success)
  unfolding text_to_integer find_base
  text_to_integer_lem s base b long h =
      let more : leb s.length 1 ≡ false = ground arith in
      rw (more, first_unit (s.length / 2) s.buffer h, base_nonzero base b)
        (ap (λ k. (some k, status_success)) (parse_signed_digit base (units s) h))

integer_to_text-eq :
    (value base : ℕ) (s : Text) (l xs ys : List ℕ)
    → known_base base ≡ true
    → to_digits value base ≡ some l
    → ltb s.maximum_length ((length l + 1) * 2) ≡ false
    → copy_bytes (length l * 2) l s.buffer ≡ some xs
    → put (length l) 0 xs ≡ some ys
    → integer_to_text value base s
      ≡ some (record s { length = length l * 2; buffer = ys }, status_success)
unfolding integer_to_text
integer_to_text-eq value base s l xs ys known found room e₁ e₂ =
    rw (known, found, room, e₁, e₂) refl

integer_to_text-overflow :
    (value base : ℕ) (s : Text) (l : List ℕ)
    → known_base base ≡ true
    → to_digits value base ≡ some l
    → ltb s.maximum_length ((length l + 1) * 2) ≡ true
    → integer_to_text value base s ≡ some (s, status_buffer_overflow)
unfolding integer_to_text
integer_to_text-overflow value base s l known found room = rw (known, found, room) refl

half : (n : ℕ) → n * 2 / 2 ≡ n
half n = omega arith

twice : (n : ℕ) → n * 2 ≡ 2 * n
twice n = omega arith

-- The text `s'` and the status that `RtlIntegerToUnicodeString` gives for the string `s`.
abbrev pub ReadsBack : HzView → ℕ → ℕ → Text → Option (Text × ℕ) → Type 0
ReadsBack hz value base s r =
    (s' : Text) × (((r ≡ some (s', status_success))
        × (text_to_integer hz (some s') base ≡ (some value, status_success)))
      ⊎ ((r ≡ some (s', status_buffer_overflow)) × (s' ≡ s) × (s.maximum_length < 66)))

-- `RtlIntegerToUnicodeString` writes a text that `RtlUnicodeStringToInteger` reads back as the same
-- number, in each of the bases 2, 8, 10 and 16, or it refuses a string whose capacity is below 66
-- bytes and leaves it. No buffer is overrun.
pub integer_round_trip :
    (hz : HzView) (value base : ℕ) (s : Text)
    → IsBase base
    → value < 2 ^ 32
    → s.maximum_length ≤ 2 * length s.buffer
    → ReadsBack hz value base s (integer_to_text value base s)
integer_round_trip hz value base s b small room =
    let (l, found, some_digit, most, front, reads) = to_digits_lem base value b small in
    elim (Bool-cases (ltb s.maximum_length ((length l + 1) * 2))) [
      | inl t ↦ (
        s,
        inr (
          integer_to_text-overflow value base s l (base_known base b) found t,
          refl,
          ground (arith, most),
        ),
      )
      | inr t ↦ written l found some_digit front reads t
    ]
  where
    written :
        (l : List ℕ)
        → to_digits value base ≡ some l
        → 0 < length l
        → starts_with_digit l ≡ true
        → parse_digits base l ≡ value
        → ltb s.maximum_length ((length l + 1) * 2) ≡ false
        → ReadsBack hz value base s (integer_to_text value base s)
    written l found some_digit front reads t =
        let (xs, e₁, len₁, front₁) = copy_lem (length l) l s.buffer (omega arith) (ground arith) in
        let (ys, e₂, len₂, front₂) =
          put_lem (length l) (length l) 0 xs (ground arith) (omega arith) in
        let s' : Text = record s { length = length l * 2; buffer = ys } in
        let text : units s' ≡ l =
          ap (λ k. take k ys) (half (length l))
          ∙ front₂
          ∙ front₁
          ∙ take-length (length l) l (omega arith) in
        (
          s',
          inl (
            integer_to_text-eq value base s l xs ys (base_known base b) found t
                (ap (λ k. copy_bytes k l s.buffer) (twice (length l)) ∙ e₁) e₂,
            text_to_integer_lem hz s' base b (omega arith) (ap starts_with_digit text ∙ front)
                ∙ ap (λ k. (some (parse_digits base k), status_success)) text
                ∙ ap (λ k. (some k, status_success)) reads,
          ),
        )
