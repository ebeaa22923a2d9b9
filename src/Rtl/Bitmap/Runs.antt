-- ===== src/Rtl/Bitmap/Runs.antt =====
-- What the queries say of the bits of a bitmap.
use crescent.Common.{
  ℕ, zero, suc, ◌+◌, ◌-◌, ◌^◌, ◌≤◌, ◌<◌, ◌≡◌, ◌↔◌, refl, ap, ◌∙◌, inl, inr, arith, Bool, true,
  false, not, ◌&&◌, none, ltb, if◌then◌else◌, Bool-cases,
}
use crescent.Rtl.Bitmap.{
  Bitmap, bit_at, all_bits, are_bits_set, are_bits_clear, out_of_range, count_bits,
  number_of_set_bits, number_of_clear_bits, find_set, find_next_run,
}

step_iff :
    (b value rest : Bool)
    → ((if b then value && rest else not value && rest) ≡ true) ↔ ((b ≡ value) × (rest ≡ true))
step_iff true true rest = (λ e. (refl, e), λ p. p.1)
step_iff true false rest = (λ e. cc, λ p. cc)
step_iff false true rest = (λ e. cc, λ p. cc)
step_iff false false rest = (λ e. (refl, e), λ p. p.1)

later :
    (m : Bitmap) (value : Bool) (n i : ℕ)
    → bit_at m i ≡ value
    → ((j : ℕ) → j < n → bit_at m (i + 1 + j) ≡ value)
    → (j : ℕ) → j < suc n
    → bit_at m (i + j) ≡ value
later m value n i here rest zero h = ap (bit_at m) (omega arith) ∙ here
later m value n i here rest (suc j) h = ap (bit_at m) (omega arith) ∙ rest j (omega arith)

all_bits_iff :
    (m : Bitmap) (value : Bool) (n i : ℕ)
    → (all_bits m value n i ≡ true) ↔ ((j : ℕ) → j < n → bit_at m (i + j) ≡ value)
unfolding all_bits
all_bits_iff m value zero i = (λ e j h. absurd (omega arith), λ h. refl)
all_bits_iff m value (suc n) i =
    let iff = step_iff (bit_at m i) value (all_bits m value n (i + 1)) in
    let rest_iff = all_bits_iff m value n (i + 1) in
    (
      λ e. later m value n i (iff.0 e).0 (rest_iff.0 (iff.0 e).1),
      λ h. iff.1 (
        ap (bit_at m) (omega arith) ∙ h 0 (omega arith),
        rest_iff.1 (λ j k. ap (bit_at m) (omega arith) ∙ h (suc j) (omega arith)),
      ),
    )

-- A range that is not empty and lies within the bitmap.
abbrev pub InRange : Bitmap → ℕ → ℕ → Type 0
InRange m start length = (0 < length) × (start + length ≤ m.size)

range_iff :
    (m : Bitmap) (start length : ℕ)
    → start + length < 2 ^ 32
    → (out_of_range m start length ≡ false) ↔ InRange m start length
range_iff m start length h = (λ e. (ground arith, ground arith), λ r. ground (arith, r))

guarded :
    (bad value : Bool) {P Q : Type 0}
    → (bad ≡ false) ↔ P
    → (value ≡ true) ↔ Q
    → ((if bad then false else value) ≡ true) ↔ (P × Q)
guarded true value p q = (λ e. cc, λ r. absurd (clash (p.1 r.0)))
  where
    clash : true ≡ false → ⊥
    clash e = cc
guarded false value p q = (λ e. (p.0 refl, q.0 e), λ r. q.1 r.1)

-- `RtlAreBitsSet` and `RtlAreBitsClear` say whether the range is within the bitmap and all of its
-- bits are set, or clear, if its end is no more than a ULONG.
pub are_bits_lem :
    (m : Bitmap) (start length : ℕ)
    → start + length < 2 ^ 32
    → ((are_bits_set m start length ≡ true)
        ↔ (InRange m start length × ((j : ℕ) → j < length → bit_at m (start + j) ≡ true)))
      × ((are_bits_clear m start length ≡ true)
          ↔ (InRange m start length × ((j : ℕ) → j < length → bit_at m (start + j) ≡ false)))
unfolding are_bits_set are_bits_clear
are_bits_lem m start length h = (
  guarded (out_of_range m start length) (all_bits m true length start) (range_iff m start length h)
      (all_bits_iff m true length start),
  guarded (out_of_range m start length) (all_bits m false length start) (range_iff m start length h)
      (all_bits_iff m false length start),
)

count_bits-sum : (m : Bitmap) (n i : ℕ) → count_bits m true n i + count_bits m false n i ≡ n
unfolding count_bits
count_bits-sum m zero i = omega arith
count_bits-sum m (suc n) i = elim (Bool-cases (bit_at m i)) [
  | inl e ↦ rw e (omega (arith, count_bits-sum m n (i + 1)))
  | inr e ↦ rw e (omega (arith, count_bits-sum m n (i + 1)))
]

-- `RtlNumberOfSetBits` and `RtlNumberOfClearBits` count each bit of the bitmap once.
pub number_of_bits : (m : Bitmap) → number_of_set_bits m + number_of_clear_bits m ≡ m.size
unfolding number_of_set_bits number_of_clear_bits
number_of_bits m = count_bits-sum m m.size 0

find_set-none :
    (m : Bitmap) (index n i : ℕ)
    → ((j : ℕ) → j < n → bit_at m (index + (i + j)) ≡ false)
    → find_set m index n i ≡ none
unfolding find_set
find_set-none m index zero i clear = refl
find_set-none m index (suc n) i clear =
    let here : bit_at m (index + i) ≡ false =
      ap (λ k. bit_at m (index + k)) (omega arith) ∙ clear 0 (omega arith) in
    rw
      (
        here,
        find_set-none m index n (i + 1)
            (λ j h. ap (λ k. bit_at m (index + k)) (omega arith) ∙ clear (j + 1) (omega arith)),
      )
      refl

-- `RtlFindNextForwardRunClear` does not end if all bits from the index on are clear: no number of
-- rounds is enough.
pub find_next_run_loops :
    (fuel : ℕ) (m : Bitmap) (index : ℕ)
    → index < m.size
    → ((j : ℕ) → j < m.size - index → bit_at m (index + j) ≡ false)
    → find_next_run fuel m index ≡ none
unfolding find_next_run
find_next_run_loops zero m index h clear = refl
find_next_run_loops (suc fuel) m index h clear =
    let more : ltb index m.size ≡ true = ground arith in
    let unset : find_set m index (m.size - index) 0 ≡ none =
      find_set-none m index (m.size - index) 0
        (λ j k. ap (λ i. bit_at m (index + i)) (omega arith) ∙ clear j k) in
    rw (more, unset, find_next_run) (find_next_run_loops fuel m index h clear)
