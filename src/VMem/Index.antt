-- ===== src/VMem/Index.antt =====
-- The freelist of a size: a larger size is on no earlier list.
use native.Mathlib.Nat.{pow-le-pow_right}
use crescent.Common.{ℕ, suc, ◌-◌, ◌≤◌, ◌<◌, ◌^◌, ◌≡◌, inl, inr, subst, arith, leb, Bool-cases}
use crescent.HzFront.{HzFront, HzBits}
use crescent.VMem.{size_to_index, freelist_count}

-- A larger segment is on no earlier freelist, and each has a freelist.
module _ (hz : HzFront) (bits : HzBits) (a b : ℕ) (some_room : 1 ≤ a) (le : a ≤ b)
    (small : b < 2 ^ 64) where
  leading_below : (n : ℕ) → 1 ≤ n → n < 2 ^ 64 → bits.countl_zero n ≤ 63
  leading_below n positive below = elim (Bool-cases (leb (bits.countl_zero n) 63)) [
    | inl e ↦ ground arith
    | inr e ↦
        let all : bits.countl_zero n ≡ 64 = ground (arith, bits.countl_zero_le n) in
        absurd (
          omega (
            arith,
            positive,
            subst (λ c. n < 2 ^ (64 - c)) all (bits.countl_zero_upper n positive below),
          ))
  ]

  leading_le : bits.countl_zero b ≤ bits.countl_zero a
  leading_le = elim (Bool-cases (leb (bits.countl_zero b) (bits.countl_zero a))) [
    | inl e ↦ ground arith
    | inr e ↦
        let pow : 2 ^ (64 - bits.countl_zero b) ≤ 2 ^ (64 - suc (bits.countl_zero a)) =
          pow-le-pow_right (omega arith) (ground arith) in
        absurd (
          omega (
            arith,
            pow,
            le,
            bits.countl_zero_lower a some_room (omega arith),
            bits.countl_zero_upper b (omega arith) small,
          ))
  ]

  pub index_le : size_to_index hz bits a ≤ size_to_index hz bits b
  unfolding size_to_index
  index_le = ground (
    arith,
    leading_le,
    leading_below a some_room (omega arith),
    leading_below b (omega arith) small,
  )

  pub index_below : size_to_index hz bits b < freelist_count
  unfolding size_to_index
  index_below = ground (arith, leading_below b (omega arith) small)
