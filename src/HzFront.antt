-- ===== src/HzFront.antt =====
-- hz::list of hzutils where its order counts, and the numeric helpers that come with it. The
-- library is a git submodule, so its operations are parameters: the records say what src/mem/vmem.cpp
-- and src/mem/malloc.cpp rely on. A list is the sequence that `front()` and iteration visit.
use crescent.Common.{
  ℕ, ◌+◌, ◌-◌, ◌≤◌, ◌<◌, ◌^◌, ◌≡◌, refl, arith, List, [], ◌∷◌, ◌++◌, Bool, ◌==◌, ltb, zero, suc,
  subst, ltb→le, inl, inr, Bool-cases, bit, if◌then◌else◌,
}

-- How often `q` is on a list.
abbrev pub count : ℕ → List ℕ → ℕ
count q [] = 0
count q (x ∷ l) = bit (q == x) + count q l

pub record HzFront : Type 0 where
  pub push : List ℕ → ℕ → List ℕ
  pub push_front : List ℕ → ℕ → List ℕ
  pub remove : List ℕ → ℕ → List ℕ
  pub insert_before : List ℕ → ℕ → ℕ → List ℕ
  pub push_lem : (l : List ℕ) (x : ℕ) → push l x ≡ l ++ x ∷ []
  pub push_front_lem : (l : List ℕ) (x : ℕ) → push_front l x ≡ x ∷ l
  pub count-remove :
      (l : List ℕ) (x q : ℕ) → 1 ≤ count x l → count q l ≡ bit (q == x) + count q (remove l x)
  pub insert_before_lem :
      (l k : List ℕ) (p x : ℕ) → count p l ≡ 0 → insert_before (l ++ p ∷ k) p x ≡ l ++ x ∷ p ∷ k

pub record HzBits : Type 0 where
  pub countl_zero : ℕ → ℕ
  pub has_single_bit : ℕ → Bool
  pub lesser : ℕ → ℕ → ℕ
  pub greater : ℕ → ℕ → ℕ
  pub countl_zero_le : (n : ℕ) → countl_zero n ≤ 64
  pub countl_zero_zero : countl_zero 0 ≡ 64
  pub countl_zero_lower : (n : ℕ) → 1 ≤ n → n < 2 ^ 64 → 2 ^ (64 - suc (countl_zero n)) ≤ n
  pub countl_zero_upper : (n : ℕ) → 1 ≤ n → n < 2 ^ 64 → n < 2 ^ (64 - countl_zero n)
  pub lesser_left : (a b : ℕ) → a ≤ b → lesser a b ≡ a
  pub lesser_right : (a b : ℕ) → b ≤ a → lesser a b ≡ b
  pub greater_left : (a b : ℕ) → b ≤ a → greater a b ≡ a
  pub greater_right : (a b : ℕ) → a ≤ b → greater a b ≡ b

-- The lesser of two is below both, and the greater above both.
pub lesser_le : (bits : HzBits) (a b : ℕ) → (bits.lesser a b ≤ a) × (bits.lesser a b ≤ b)
lesser_le bits a b = elim (Bool-cases (ltb a b)) [
  | inl e ↦ let l = bits.lesser_left a b (ground arith) in (omega (arith, l), ground (arith, l))
  | inr e ↦ let l = bits.lesser_right a b (ground arith) in (ground (arith, l), omega (arith, l))
]

pub le_greater : (bits : HzBits) (a b : ℕ) → (a ≤ bits.greater a b) × (b ≤ bits.greater a b)
le_greater bits a b = elim (Bool-cases (ltb a b)) [
  | inl e ↦ let l = bits.greater_right a b (ground arith) in (ground (arith, l), omega (arith, l))
  | inr e ↦ let l = bits.greater_left a b (ground arith) in (omega (arith, l), ground (arith, l))
]

erase : List ℕ → ℕ → List ℕ
erase [] d = []
erase (x ∷ l) d = if d == x then l else x ∷ erase l d

count-erase :
    (l : List ℕ) (x q : ℕ) → 1 ≤ count x l → count q l ≡ bit (q == x) + count q (erase l x)
unfolding erase
count-erase [] x q h = absurd (omega arith)
count-erase (y ∷ l) x q h = ground (arith, count-erase l x q)

insert_at : List ℕ → ℕ → ℕ → List ℕ
insert_at [] p x = []
insert_at (y ∷ l) p x = if p == y then x ∷ y ∷ l else y ∷ insert_at l p x

insert_at_lem :
    (l k : List ℕ) (p x : ℕ) → count p l ≡ 0 → insert_at (l ++ p ∷ k) p x ≡ l ++ x ∷ p ∷ k
unfolding insert_at
insert_at_lem [] k p x h = ground arith
insert_at_lem (y ∷ l) k p x h = ground (arith, insert_at_lem l k p x)

-- Lists that meet the assumptions.
unfoldable pub linked : HzFront
unfolding erase count-erase insert_at insert_at_lem
linked = record {
  push = λ l x. l ++ x ∷ [];
  push_front = λ l x. x ∷ l;
  remove = erase;
  insert_before = insert_at;
  push_lem = λ l x. refl;
  push_front_lem = λ l x. refl;
  count-remove = count-erase;
  insert_before_lem = insert_at_lem;
}

leading : ℕ → ℕ → ℕ
leading zero n = 0
leading (suc w) n = if ltb n (2 ^ w) then suc (leading w n) else 0

leading_le : (w n : ℕ) → leading w n ≤ w
unfolding leading
leading_le zero n = omega arith
leading_le (suc w) n = ground (arith, leading_le w n)

whole : (w : ℕ) → suc w ≡ suc w - 0
whole w = omega arith

less : (w k : ℕ) → w - k ≡ suc w - suc k
less w k = omega arith

leading_lower : (w n : ℕ) → 1 ≤ n → n < 2 ^ w → 2 ^ (w - suc (leading w n)) ≤ n
unfolding leading
leading_lower zero n h lt = ground arith
leading_lower (suc w) n h lt = elim (Bool-cases (ltb n (2 ^ w))) [
  | inl e ↦
      rw e
        (subst (λ k. 2 ^ k ≤ n) (less w (suc (leading w n))) (leading_lower w n h (ground arith)))
  | inr e ↦ rw e (subst (λ k. 2 ^ k ≤ n) top (ltb→le n (2 ^ w) e))
]
  where
    top : w ≡ suc w - 1
    top = omega arith

leading_upper : (w n : ℕ) → 1 ≤ n → n < 2 ^ w → n < 2 ^ (w - leading w n)
unfolding leading
leading_upper zero n h lt = lt
leading_upper (suc w) n h lt = elim (Bool-cases (ltb n (2 ^ w))) [
  | inl e ↦
      rw e (subst (λ k. n < 2 ^ k) (less w (leading w n)) (leading_upper w n h (ground arith)))
  | inr e ↦ rw e (subst (λ k. n < 2 ^ k) (whole w) lt)
]

smaller : ℕ → ℕ → ℕ
smaller a b = if ltb a b then a else b

larger : ℕ → ℕ → ℕ
larger a b = if ltb a b then b else a

smaller_left : (a b : ℕ) → a ≤ b → smaller a b ≡ a
unfolding smaller
smaller_left a b h = ground arith

smaller_right : (a b : ℕ) → b ≤ a → smaller a b ≡ b
unfolding smaller
smaller_right a b h = ground arith

larger_left : (a b : ℕ) → b ≤ a → larger a b ≡ a
unfolding larger
larger_left a b h = ground arith

larger_right : (a b : ℕ) → a ≤ b → larger a b ≡ b
unfolding larger
larger_right a b h = ground arith

-- Operations that meet the assumptions.
unfoldable pub plain_bits : HzBits
unfolding less whole leading leading_le leading_lower leading_upper smaller larger smaller_left
    smaller_right larger_left larger_right
plain_bits = record {
  countl_zero = leading 64;
  has_single_bit = λ n. n == 2 ^ (63 - leading 64 n);
  lesser = smaller;
  greater = larger;
  countl_zero_le = leading_le 64;
  countl_zero_zero = refl;
  countl_zero_lower = leading_lower 64;
  countl_zero_upper = leading_upper 64;
  lesser_left = smaller_left;
  lesser_right = smaller_right;
  greater_left = larger_left;
  greater_right = larger_right;
}
