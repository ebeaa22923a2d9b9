-- ===== src/Rtl/Compare/Order.antt =====
-- The tests for equality of strings, against lists of characters.
use crescent.Common.{
  ℕ, zero, suc, ◌/◌, ◌^◌, ◌≤◌, ◌<◌, ◌≡◌, ◌≢◌, refl, ap, sym, ◌∙◌, inl, inr, ◌↔◌, arith, Bool, true,
  false, some, List, [], ◌∷◌, map, ltb, ◌==◌, length, take, Bool-cases, sub32,
}
use mathlib.Core.List.{head-eq_of_cons-eq, tail-eq_of_cons-eq}
use crescent.Rtl.Text.{Text, units}
use crescent.Rtl.Compare.{same, folding, equal_unicode, prefix_unicode}

pub cons : {x y : ℕ} {a b : List ℕ} → x ≡ y → a ≡ b → x ∷ a ≡ y ∷ b
cons e f i = e i ∷ f i

pub apart : {x y : ℕ} → x ≡ y → x == y ≡ false → ⊥
apart e f = ground arith

-- Characters of 16 bits.
abbrev pub AllUnits : List ℕ → Type 0
AllUnits [] = Unit {0}
AllUnits (c ∷ l) = (c < 2 ^ 16) × AllUnits l

-- The loop ends within the buffers, and finds whether the characters agree when folded.
pub same_lem :
    (fold : ℕ → ℕ) (n : ℕ) (a b : List ℕ)
    → n ≤ length a
    → n ≤ length b
    → (r : Bool) × (same fold n a b ≡ some r)
      × ((r ≡ true) ↔ (map fold (take n a) ≡ map fold (take n b)))
unfolding same
same_lem fold zero a b ha hb = (true, refl, (λ e. refl, λ e. refl))
same_lem fold (suc n) [] b ha hb = absurd (omega arith)
same_lem fold (suc n) (x ∷ a) [] ha hb = absurd (omega arith)
same_lem fold (suc n) (x ∷ a) (y ∷ b) ha hb = elim (Bool-cases (fold x == fold y)) [
  | inl e ↦
      let (r, found, iff) = same_lem fold n a b (omega arith) (omega arith) in
      (r, rw e found, (λ t. cons (ground arith) (iff.0 t), λ t. iff.1 (tail-eq_of_cons-eq t)))
  | inr e ↦ (false, rw e refl, (λ t. cc, λ t. absurd (apart (head-eq_of_cons-eq t) e)))
]

pub difference_zero : (x y : ℕ) → x ≡ y → sub32 x y == 0 ≡ true
difference_zero x y e = ground arith

pub difference_more :
    (x y : ℕ)
    → x == y ≡ false
    → x < 2 ^ 32
    → y < 2 ^ 32
    → (sub32 x y == 0 ≡ false) × (sub32 y x ≡ sub32 0 (sub32 x y)) × (sub32 x y ≢ 0)
difference_more x y e hx hy = (ground arith, ground arith, ground arith)

-- The characters of a string are in its buffer.
pub record Readable (s : Text) : Type 0 where
  pub within : s.length / 2 ≤ length s.buffer
  pub units : AllUnits s.buffer

-- The characters of a UNICODE_STRING as a comparison sees them.
abbrev pub key : Bool → Text → List ℕ
key case_insensitive s = map (folding case_insensitive) (units s)

-- `RtlEqualUnicodeString` says whether two strings have the same length and the same characters,
-- up to case if that is asked for; it reads nothing outside of the buffers.
pub equal_unicode_lem :
    (a b : Text) (ci : Bool)
    → Readable a
    → Readable b
    → (r : Bool) × (equal_unicode a b ci ≡ some r)
      × ((r ≡ true) ↔ ((a.length ≡ b.length) × (key ci a ≡ key ci b)))
unfolding equal_unicode
equal_unicode_lem a b ci ra rb = elim (Bool-cases (a.length == b.length)) [
  | inl e ↦
      let same_length : a.length ≡ b.length = ground arith in
      let (r, found, iff) =
        same_lem (folding ci) (a.length / 2) a.buffer b.buffer ra.within
          (rw same_length rb.within) in
      let keys : map (folding ci) (take (a.length / 2) b.buffer) ≡ key ci b =
        ap (λ n. map (folding ci) (take (n / 2) b.buffer)) same_length in
      (r, rw e found, (λ t. (same_length, iff.0 t ∙ keys), λ t. iff.1 (t.1 ∙ sym keys)))
  | inr e ↦ (false, rw e refl, (λ t. cc, λ t. absurd (apart t.0 e)))
]

-- `RtlPrefixUnicodeString` says whether the second string starts with the characters of the first.
pub prefix_unicode_lem :
    (a b : Text) (ci : Bool)
    → Readable a
    → Readable b
    → (r : Bool) × (prefix_unicode a b ci ≡ some r)
      × ((r ≡ true)
          ↔ ((a.length ≤ b.length) × (key ci a ≡ map (folding ci) (take (a.length / 2) b.buffer))))
unfolding prefix_unicode
prefix_unicode_lem a b ci ra rb = elim (Bool-cases (ltb b.length a.length)) [
  | inl e ↦ (false, rw e refl, (λ t. cc, λ t. absurd (ground arith)))
  | inr e ↦
      let shorter : a.length ≤ b.length = ground arith in
      let (r, found, iff) =
        same_lem (folding ci) (a.length / 2) a.buffer b.buffer ra.within
          (omega (arith, shorter, rb.within)) in
      (r, rw e found, (λ t. (shorter, iff.0 t), λ t. iff.1 t.1))
]
