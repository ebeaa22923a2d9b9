-- ===== src/HzView.antt =====
-- The parts of hzutils that the strings of src/std/rtl.cpp call: `hz::min` and the members of
-- `hz::u16string_view`. The library is a git submodule, so they are parameters.
use mathlib.Core.List.{head-eq_of_cons-eq, tail-eq_of_cons-eq}
use crescent.Common.{
  ℕ, ap, ◌∙◌, inl, inr, ◌≤◌, ◌≡◌, ◌↔◌, refl, arith, Bool, true, false, ◌&&◌, List, [], ◌∷◌, ◌==◌,
  length, take, drop, ltb, if◌then◌else◌, Bool-cases,
}

pub record HzView : Type 0 where
  pub lesser : ℕ → ℕ → ℕ
  pub starts_with : List ℕ → List ℕ → Bool
  pub substr : List ℕ → ℕ → List ℕ
  pub lesser_left : (a b : ℕ) → a ≤ b → lesser a b ≡ a
  pub lesser_right : (a b : ℕ) → b ≤ a → lesser a b ≡ b
  pub starts_with_lem : (v p : List ℕ) → (starts_with v p ≡ true) ↔ (take (length p) v ≡ p)
  pub substr_lem : (v : List ℕ) (n : ℕ) → n ≤ length v → substr v n ≡ drop n v

smaller : ℕ → ℕ → ℕ
smaller a b = if ltb a b then a else b

begins : List ℕ → List ℕ → Bool
begins v [] = true
begins [] (x ∷ p) = false
begins (y ∷ v) (x ∷ p) = y == x && begins v p

begins_iff : (v p : List ℕ) → (begins v p ≡ true) ↔ (take (length p) v ≡ p)
unfolding begins
begins_iff v [] = (λ e. refl, λ e. refl)
begins_iff [] (x ∷ p) = (λ e. cc, λ e. cc)
begins_iff (y ∷ v) (x ∷ p) = elim (Bool-cases (y == x)) [
  | inl e ↦
      let same : y ≡ x = ground arith in
      let iff = begins_iff v p in
      (
        λ t. ap (λ k. k ∷ take (length p) v) same ∙ ap (λ l. x ∷ l) (iff.0 (ground arith)),
        λ t. rw e (iff.1 (tail-eq_of_cons-eq t)),
      )
  | inr e ↦ (λ t. absurd (ground arith), λ t. absurd (differ (head-eq_of_cons-eq t) e))
]
  where
    differ : {a b : ℕ} → a ≡ b → a == b ≡ false → ⊥
    differ p q = ground arith

smaller_left : (a b : ℕ) → a ≤ b → smaller a b ≡ a
unfolding smaller
smaller_left a b h = ground arith

smaller_right : (a b : ℕ) → b ≤ a → smaller a b ≡ b
unfolding smaller
smaller_right a b h = ground arith

-- Operations that meet the assumptions.
unfoldable pub plain : HzView
unfolding smaller begins begins_iff smaller_left smaller_right
plain = record {
  lesser = smaller;
  starts_with = begins;
  substr = λ v n. drop n v;
  lesser_left = smaller_left;
  lesser_right = smaller_right;
  starts_with_lem = begins_iff;
  substr_lem = λ v n h. refl;
}
