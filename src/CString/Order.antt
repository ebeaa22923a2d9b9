-- ===== src/CString/Order.antt =====
-- The comparisons of strings.
use crescent.Common.{
  ℕ, ◌^◌, ◌<◌, ◌≡◌, refl, ap, sym, ◌∙◌, ◌↔◌, inl, inr, arith, true, false, not, ◌||◌, Option, some,
  List, [], ◌∷◌, map, ◌==◌, sub32, Bool-cases,
}
use mathlib.Core.List.{head-eq_of_cons-eq, tail-eq_of_cons-eq}
use crescent.Rtl.Compare.Order.{AllUnits, difference_zero, difference_more, apart, cons}
use crescent.CString.{strcmp, to_lower}
use crescent.CString.Strings.{IsText}

-- What a comparison subtracts: 32 bits, and the terminator's value is no other character's.
pub record IsValue (value : ℕ → ℕ) : Type 0 where
  pub small : (c : ℕ) → c < 2 ^ 16 → value c < 2 ^ 32
  pub end : (c : ℕ) → c < 2 ^ 16 → c == 0 ≡ false → value c == value 0 ≡ false

-- `_wcsicmp` subtracts small letters.
pub to_lower-IsValue : IsValue to_lower
to_lower-IsValue = record { small = λ c h. ground arith; end = λ c h e. ground arith }

-- The outcome of a comparison and of the same in the other order; `P` is that the texts agree.
abbrev pub Compares : Option ℕ → Option ℕ → Type 0 → Type 0
Compares o o' P = (r : ℕ) × (o ≡ some r) × (o' ≡ some (sub32 0 r)) × ((r ≡ 0) ↔ P)

stops :
    (value : ℕ → ℕ) (x y : ℕ) (a b : List ℕ)
    → (not (sub32 (value x) (value y) == 0) || x == 0) ≡ true
    → strcmp value (x ∷ a) (y ∷ b) ≡ some (sub32 (value x) (value y))
unfolding strcmp
stops value x y a b e = rw e refl

goes_on :
    (value : ℕ → ℕ) (x y : ℕ) (a b : List ℕ)
    → (not (sub32 (value x) (value y) == 0) || x == 0) ≡ false
    → strcmp value (x ∷ a) (y ∷ b) ≡ strcmp value a b
unfolding strcmp
goes_on value x y a b e = rw e refl

differs :
    (value : ℕ → ℕ) (x y : ℕ) (a b : List ℕ) {P : Type 0}
    → value x == value y ≡ false
    → value x < 2 ^ 32
    → value y < 2 ^ 32
    → (P → ⊥)
    → Compares (strcmp value (x ∷ a) (y ∷ b)) (strcmp value (y ∷ b) (x ∷ a)) P
differs value x y a b e hx hy other =
    let (more, back, nonzero) = difference_more (value x) (value y) e hx hy in
    let (more', back', nonzero') = difference_more (value y) (value x) (ground arith) hy hx in
    (
      sub32 (value x) (value y),
      stops value x y a b (ground (arith, more)),
      stops value y x b a (ground (arith, more')) ∙ ap some back,
      (λ t. absurd (nonzero t), λ t. absurd (other t)),
    )

-- `strcmp` and its kin read no further than the terminators. The result is 0 just for texts whose
-- characters have the same values, and the other order of the texts gives the negative result.
pub strcmp_lem :
    (value : ℕ → ℕ) (a b s t : List ℕ)
    → IsValue value
    → AllUnits a
    → AllUnits b
    → IsText a s
    → IsText b t
    → Compares (strcmp value a b) (strcmp value b a) (map value s ≡ map value t)
strcmp_lem value [] b s t v ua ub ha hb = absurd ha
strcmp_lem value (x ∷ a) [] s t v ua ub ha hb = absurd hb
strcmp_lem value (x ∷ a) (y ∷ b) [] [] v ua ub ha hb =
    let same : x ≡ y = ha ∙ sym hb in
    let null : sub32 (value x) (value y) ≡ 0 =
      ground (arith, difference_zero (value x) (value y) (ap value same)) in
    let null' : sub32 (value y) (value x) ≡ 0 =
      ground (arith, difference_zero (value y) (value x) (ap value (sym same))) in
    (
      0,
      stops value x y a b (ground arith) ∙ ap some null,
      stops value y x b a (ground arith) ∙ ap some null',
      (λ e. refl, λ e. refl),
    )
strcmp_lem value (x ∷ a) (y ∷ b) [] (d ∷ t) v (ux, ua) (uy, ub) ha (f, nf, hb) =
    differs value x y a b (ground (arith, ap value ha, v.end y uy (rw f nf))) (v.small x ux)
      (v.small y uy) (λ e. cc)
strcmp_lem value (x ∷ a) (y ∷ b) (c ∷ s) [] v (ux, ua) (uy, ub) (e, ne, ha) hb =
    differs value x y a b (ground (arith, ap value hb, v.end x ux (rw e ne))) (v.small x ux)
      (v.small y uy) (λ e. cc)
strcmp_lem value (x ∷ a) (y ∷ b) (c ∷ s) (d ∷ t) v (ux, ua) (uy, ub) (e, ne, ha) (f, nf, hb) =
    elim (Bool-cases (value x == value y)) [
      | inl z ↦
          let same : value x ≡ value y = ground arith in
          let (r, found, back, iff) = strcmp_lem value a b s t v ua ub ha hb in
          let null : sub32 (value x) (value y) == 0 ≡ true =
            difference_zero (value x) (value y) same in
          let null' : sub32 (value y) (value x) == 0 ≡ true =
            difference_zero (value y) (value x) (sym same) in
          let cd : value c ≡ value d = ap value (sym e) ∙ same ∙ ap value f in
          (
            r,
            goes_on value x y a b (ground (arith, e, ne)) ∙ found,
            goes_on value y x b a (ground (arith, f, nf)) ∙ back,
            (λ k. cons cd (iff.0 k), λ k. iff.1 (tail-eq_of_cons-eq k)),
          )
      | inr z ↦
          differs value x y a b z (v.small x ux) (v.small y uy)
            (λ k. apart (ap value e ∙ head-eq_of_cons-eq k ∙ ap value (sym f)) z)
    ]
