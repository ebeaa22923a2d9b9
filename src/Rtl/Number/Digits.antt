-- ===== src/Rtl/Number/Digits.antt =====
-- The digits of a number: how many there are, and that reading them gives the number back.
use crescent.Common.{
  ℕ, zero, suc, ◌+◌, ◌-◌, ◌*◌, ◌/◌, ◌%◌, ◌^◌, ◌≤◌, ◌<◌, ◌≡◌, ◌≢◌, refl, ap, sym, ◌∙◌, subst, inl,
  inr, ◌⊎◌, arith, Bool, true, false, ◌&&◌, ◌||◌, some, List, [], ◌∷◌, ltb, leb, ◌==◌,
  if◌then◌else◌, length, get_or, Bool-cases,
}
use native.Mathlib.Nat.{two-pow-succ}
use mathlib.Core.Option.{some-injective}
use crescent.Rtl.Number.{digits, to_digits, digit_chars, parse_low, parse_high, parse_digits, shift}

-- The bases that the functions convert with.
abbrev pub IsBase : ℕ → Type 0
IsBase base = (base ≡ 2) ⊎ ((base ≡ 8) ⊎ ((base ≡ 10) ⊎ (base ≡ 16)))

abbrev pub parse_from : ℕ → List ℕ → ℕ → ℕ
parse_from base view res = if leb base 10 then parse_low base view res else parse_high base view res

check_below : (ℕ → Bool) → ℕ → Bool
check_below f zero = true
check_below f (suc n) = f n && check_below f n

check_below_lem : (f : ℕ → Bool) (n d : ℕ) → check_below f n ≡ true → d < n → f d ≡ true
unfolding check_below
check_below_lem f zero d all h = absurd (omega arith)
check_below_lem f (suc n) d all h = elim (Bool-cases (d == n)) [
  | inl e ↦ let same : d ≡ n = ground arith in rw same (ground arith)
  | inr e ↦ ground (arith, check_below_lem f n d)
]

decimal_char : (d : ℕ) → d < 10 → get_or digit_chars d 0 ≡ d + 48
unfolding check_below
decimal_char d h =
    ground (arith, check_below_lem (λ k. get_or digit_chars k 0 == k + 48) 10 d refl h)

letter_char : (d : ℕ) → 10 ≤ d → d < 16 → get_or digit_chars d 0 ≡ d + 55
unfolding check_below
letter_char d low h =
    ground
      (arith, check_below_lem (λ k. ltb k 10 || (get_or digit_chars k 0 == k + 55)) 16 d refl h)

low_step :
    (base c d : ℕ) (view : List ℕ) (res : ℕ)
    → c ≡ d + 48
    → c ≤ get_or digit_chars (base - 1) 0
    → parse_low base (c ∷ view) res ≡ parse_low base view (shift base res d)
unfolding parse_low
low_step base c d view res low high = ground arith

high_step :
    (base c d : ℕ) (view : List ℕ) (res : ℕ)
    → (48 ≤ c) × (c ≤ 57) × (d ≡ c - 48) ⊎ (65 ≤ c) × (c ≤ 70) × (d ≡ c - 55)
    → parse_high base (c ∷ view) res ≡ parse_high base view (shift base res d)
unfolding parse_high
high_step base c d view res (inl (low, high, e)) = ground arith
high_step base c d view res (inr (low, high, e)) = ground arith

-- Reading a digit's character goes on with the digit.
parse_digit :
    (base d : ℕ) (view : List ℕ) (res : ℕ)
    → IsBase base
    → d < base
    → parse_from base (get_or digit_chars d 0 ∷ view) res ≡ parse_from base view (shift base res d)
parse_digit base d view res (inl e) h = rw e (
    low_step 2 (get_or digit_chars d 0) d view res (decimal_char d (omega arith))
      (omega (arith, decimal_char d)))
parse_digit base d view res (inr (inl e)) h = rw e (
    low_step 8 (get_or digit_chars d 0) d view res (decimal_char d (omega arith))
      (omega (arith, decimal_char d)))
parse_digit base d view res (inr (inr (inl e))) h = rw e (
    low_step 10 (get_or digit_chars d 0) d view res (decimal_char d (omega arith))
      (omega (arith, decimal_char d)))
parse_digit base d view res (inr (inr (inr e))) h = rw e (elim (Bool-cases (ltb d 10)) [
  | inl l ↦ high_step 16 (get_or digit_chars d 0) d view res (inl (ground (arith, decimal_char d)))
  | inr l ↦ high_step 16 (get_or digit_chars d 0) d view res (inr (ground (arith, letter_char d)))
])

base_div : (base value k : ℕ) → IsBase base → value < 2 * k → value / base < k
base_div base value k b h = ground arith

base_split :
    (base value : ℕ)
    → IsBase base
    → (value / base * base + value % base ≡ value) × (value % base < base)
base_split base value b = ground arith

room_left : (room base value : ℕ) → IsBase base → value < 2 ^ suc room → value / base ≢ 0 → 0 < room
room_left zero base value b h more = absurd (more (ground arith))
room_left (suc room) base value b h more = omega arith

first_digit :
    (base value : ℕ)
    → IsBase base
    → value / base ≡ 0
    → value < 2 ^ 32
    → shift base 0 (value % base) ≡ value
first_digit base value b z h = ground arith

next_digit :
    (base value : ℕ)
    → IsBase base
    → value < 2 ^ 32
    → shift base (value / base) (value % base) ≡ value
next_digit base value b h = ground arith

-- The digits are found if there is room for as many as the number has bits.
pub digits-total :
    (bits room base value : ℕ) (written : List ℕ)
    → IsBase base
    → 0 < bits
    → bits ≤ room
    → value < 2 ^ bits
    → (l : List ℕ) × (digits room base value written ≡ some l)
      × (length l ≤ bits + length written)
      × (length written < length l)
unfolding digits
digits-total zero room base value written b pos fits h = absurd (omega arith)
digits-total (suc bits) zero base value written b pos fits h = absurd (omega arith)
digits-total (suc bits) (suc room) base value written b pos fits h =
    elim (Bool-cases (value / base == 0)) [
      | inl e ↦ (get_or digit_chars (value % base) 0 ∷ written, rw e refl, omega arith, omega arith)
      | inr e ↦
          let (l, found, most, least) =
            digits-total bits room base (value / base)
              (get_or digit_chars (value % base) 0 ∷ written) b
              (room_left bits base value b h (λ z. ground arith)) (omega arith)
              (base_div base value (2 ^ bits) b (omega (arith, two-pow-succ bits))) in
          (l, rw e found, omega (arith, most), omega (arith, least))
    ]

-- Reading the digits of a number in front of `written` is reading `written` behind the number.
pub parse-digits :
    (room base value : ℕ) (written l : List ℕ)
    → IsBase base
    → value < 2 ^ 32
    → digits room base value written ≡ some l
    → parse_from base l 0 ≡ parse_from base written value
unfolding digits
parse-digits zero base value written l b h e = cc
parse-digits (suc room) base value written l b h e = elim (Bool-cases (value / base == 0)) [
  | inl z ↦
      let step : digits (suc room) base value written
          ≡ some (get_or digit_chars (value % base) 0 ∷ written) =
        rw z refl in
      let same : get_or digit_chars (value % base) 0 ∷ written ≡ l =
        some-injective _ _ (sym step ∙ e) in
      rw (sym same) (
        parse_digit base (value % base) written 0 b (base_split base value b).1
        ∙ ap (parse_from base written) (first_digit base value b (ground arith) h))
  | inr z ↦
      let step : digits (suc room) base value written
          ≡ digits room base (value / base) (get_or digit_chars (value % base) 0 ∷ written) =
        rw z refl in
      parse-digits room base (value / base) (get_or digit_chars (value % base) 0 ∷ written) l b
        (ground arith) (sym step ∙ e)
      ∙ parse_digit base (value % base) written (value / base) b (base_split base value b).1
      ∙ ap (parse_from base written) (next_digit base value b h)
]

-- The first digit's character: neither a space, nor a sign, nor a terminator.
abbrev pub starts_with_digit : List ℕ → Bool
starts_with_digit [] = false
starts_with_digit (c ∷ l) = leb 48 c

digit_char : (base value : ℕ) → IsBase base → 48 ≤ get_or digit_chars (value % base) 0
digit_char base value b = elim (Bool-cases (ltb (value % base) 10)) [
  | inl l ↦ ground (arith, decimal_char (value % base))
  | inr l ↦ ground (arith, letter_char (value % base), base_split base value b)
]

pub starts-digits :
    (room base value : ℕ) (written l : List ℕ)
    → IsBase base
    → digits room base value written ≡ some l
    → starts_with_digit l ≡ true
unfolding digits
starts-digits zero base value written l b e = cc
starts-digits (suc room) base value written l b e = elim (Bool-cases (value / base == 0)) [
  | inl z ↦
      let step : digits (suc room) base value written
          ≡ some (get_or digit_chars (value % base) 0 ∷ written) =
        rw z refl in
      subst (λ k. starts_with_digit k ≡ true) (some-injective _ _ (sym step ∙ e))
        (ground (arith, digit_char base value b))
  | inr z ↦
      let step : digits (suc room) base value written
          ≡ digits room base (value / base) (get_or digit_chars (value % base) 0 ∷ written) =
        rw z refl in
      starts-digits room base (value / base) (get_or digit_chars (value % base) 0 ∷ written) l b
        (sym step ∙ e)
]

-- The buffer of 64 characters is never left, and reading the characters gives the number.
pub to_digits_lem :
    (base value : ℕ)
    → IsBase base
    → value < 2 ^ 32
    → (l : List ℕ) × (to_digits value base ≡ some l)
      × (0 < length l)
      × (length l ≤ 32)
      × (starts_with_digit l ≡ true)
      × (parse_digits base l ≡ value)
unfolding to_digits parse_digits parse_low parse_high
to_digits_lem base value b h =
    let (l, e, most, least) = digits-total 32 64 base value [] b (omega arith) (omega arith) h in
    let nonzero : base == 0 ≡ false = ground arith in
    (
      l,
      rw nonzero e,
      omega (arith, least),
      omega (arith, most),
      starts-digits 64 base value [] l b e,
      parse-digits 64 base value [] l b h e
          ∙ elim (leb base 10) as (λ t. (if t then value else value) ≡ value) [
            | true ↦ refl
            | false ↦ refl
          ],
    )
