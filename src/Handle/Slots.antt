-- ===== src/Handle/Slots.antt =====
-- The array of slots as a list: what a write and an enlargement leave of the other slots.
use crescent.Common.{
  ℕ, zero, suc, ◌-◌, ◌^◌, ◌<◌, ◌≡◌, refl, List, [], ◌∷◌, ◌++◌, arith, length, length-append,
  length-replicate, replicate,
}
use crescent.Handle.{Handle, blank, slot, grown, enlarge, HandleTable}

pub slot-replicate : (n i : ℕ) → slot (replicate n blank) i ≡ blank
slot-replicate zero i = refl
slot-replicate (suc n) zero = refl
slot-replicate (suc n) (suc i) = slot-replicate n i

pub slot-append : (xs : List Handle) (n i : ℕ) → slot (xs ++ replicate n blank) i ≡ slot xs i
slot-append [] n i = slot-replicate n i
slot-append (x ∷ xs) n zero = refl
slot-append (x ∷ xs) n (suc i) = slot-append xs n i

pub grown_bounds : (n : ℕ) → n < 2 ^ 59 → (n < grown n) × (grown n < 2 ^ 60)
unfolding grown
grown_bounds n h = ground arith

pub length-enlarge :
    (t : HandleTable)
    → length t.table ≡ t.size
    → t.size < 2 ^ 59
    → length (enlarge t).table ≡ grown t.size
unfolding enlarge
length-enlarge t e h = omega (
  arith,
  grown_bounds t.size h,
  length-append t.table (replicate (grown t.size - t.size) blank),
  length-replicate (grown t.size - t.size) blank,
)
