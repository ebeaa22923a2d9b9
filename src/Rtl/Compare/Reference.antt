-- ===== src/Rtl/Compare/Reference.antt =====
-- RtlCompareUnicodeString against a comparison of lists of characters.
use crescent.Common.{
  ℕ, zero, suc, ◌-◌, ◌/◌, ◌^◌, ◌≤◌, ◌<◌, ◌≡◌, refl, ap, ◌∙◌, inl, inr, arith, Bool, true, false,
  ◌&&◌, some, List, [], ◌∷◌, map, ltb, leb, ◌==◌, if◌then◌else◌, length, take, Bool-cases, sub32,
}
use crescent.Rtl.Text.{Text, units}
use crescent.Rtl.Compare.{difference, folding, compare_unicode, upcase}
use crescent.Rtl.Compare.Order.{Readable, AllUnits}

-- The capital of a letter of ASCII, which stands 32 places before the small one.
abbrev pub capital : ℕ → ℕ
capital c = if leb 97 c && ltb c 123 then c - 32 else c

abbrev pub letter : Bool → ℕ → ℕ
letter ci c = if ci then capital c else c

-- By the first characters that differ, as an `int`.
abbrev pub first_difference : List ℕ → List ℕ → ℕ
first_difference [] b = 0
first_difference (x ∷ a) [] = 0
first_difference (x ∷ a) (y ∷ b) =
    let rest = first_difference a b in
    if x == y then rest else if ltb x y then 2 ^ 32 - (y - x) else x - y

-- The shorter string comes first, and among strings of the same length the one with the smaller
-- character where they first differ.
abbrev pub reference : Bool → Text → Text → ℕ
reference ci a b =
    if ltb a.length b.length
    then 2 ^ 32 - 1
    else if ltb b.length a.length
    then 1
    else first_difference (map (letter ci) (units a)) (map (letter ci) (units b))

letter_lem : (ci : Bool) (c : ℕ) → folding ci c ≡ letter ci c
unfolding folding upcase
letter_lem ci c = ground arith

letter_small : (ci : Bool) (c : ℕ) → c < 2 ^ 16 → letter ci c < 2 ^ 16
letter_small ci c h = ground arith

step_eq : (x y : ℕ) → x == y ≡ true → sub32 x y == 0 ≡ true
step_eq x y e = ground arith

step_ne :
    (x y : ℕ)
    → x == y ≡ false
    → x < 2 ^ 16
    → y < 2 ^ 16
    → (sub32 x y == 0 ≡ false) × (sub32 x y ≡ (if ltb x y then 2 ^ 32 - (y - x) else x - y))
step_ne x y e hx hy = (ground arith, ground arith)

difference_lem :
    (ci : Bool) (n : ℕ) (a b : List ℕ)
    → n ≤ length a
    → n ≤ length b
    → AllUnits a
    → AllUnits b
    → difference (folding ci) n a b
      ≡ some (first_difference (map (letter ci) (take n a)) (map (letter ci) (take n b)))
unfolding difference
difference_lem ci zero a b ha hb ua ub = refl
difference_lem ci (suc n) [] b ha hb ua ub = absurd (omega arith)
difference_lem ci (suc n) (x ∷ a) [] ha hb ua ub = absurd (omega arith)
difference_lem ci (suc n) (x ∷ a) (y ∷ b) ha hb (ux, ua) (uy, ub) =
    rw (letter_lem ci x, letter_lem ci y)
      (elim (Bool-cases (letter ci x == letter ci y)) [
        | inl e ↦
            rw (e, step_eq (letter ci x) (letter ci y) e)
              (difference_lem ci n a b (omega arith) (omega arith) ua ub)
        | inr e ↦
            let (apart, value) =
              step_ne (letter ci x) (letter ci y) e (letter_small ci x ux) (letter_small ci y uy) in
            rw (e, apart) (ap some value)
      ])

-- For strings whose characters are in their buffers, of 16 bits each, `RtlCompareUnicodeString` reads
-- nothing outside of the buffers, and returns what the reference
-- comparison does: -1 or 1, as 32 bits, if the first string is shorter or longer, and otherwise the
-- difference of the first characters that differ, with small letters of ASCII as capitals if that is
-- asked for, or 0 if none do.
pub compare_unicode-reference :
    (a b : Text) (ci : Bool)
    → Readable a
    → Readable b
    → compare_unicode a b ci ≡ some (reference ci a b)
unfolding compare_unicode
compare_unicode-reference a b ci ra rb = elim (Bool-cases (ltb a.length b.length)) [
  | inl e ↦ rw e refl
  | inr e ↦ elim (Bool-cases (ltb b.length a.length)) [
    | inl f ↦ rw (e, f) refl
    | inr f ↦
        let same_length : a.length ≡ b.length = ground arith in
        rw (e, f)
          (difference_lem ci (a.length / 2) a.buffer b.buffer ra.within
              (omega (arith, same_length, rb.within)) ra.units rb.units
            ∙ ap
                (λ n. some (
                  first_difference (map (letter ci) (units a))
                    (map (letter ci) (take (n / 2) b.buffer))))
                same_length)
  ]
]
