-- ===== src/VMem/Arena.antt =====
-- The invariant of an arena, and what joining two neighbours does to it.
use crescent.Common.{[], some, ◌⊎◌, ℕ, ◌+◌, ◌^◌, ◌≤◌, ◌<◌, ◌≡◌, refl, true, false, List, ◌∷◌, ◌==◌}
use crescent.HzFront.{HzFront, HzBits, count}
use crescent.VMem.Totals.{total}
use crescent.VMem.Segments.{prev_of, SegmentType, free, used, span, Segment, VMem, is_free, is_span}
use crescent.VMem.Freelists.{size_to_index}
use crescent.VMem.Tiles.{Tiles}
use crescent.VMem.Files.{Files}
use crescent.VMem.Pool.{Pool}

-- The arena is the same.
abbrev pub Same : VMem → VMem → Type 0
Same s t = (t.base ≡ s.base) × (t.size ≡ s.size) × (t.quantum ≡ s.quantum)

-- What filing `seg` leaves as it was: the arena, each segment that is not free, and what the
-- others that are not free add to a sum.
pub record Keeps (s t : VMem) (seg : ℕ) : Type 0 where
  pub base : t.base ≡ s.base
  pub size : t.size ≡ s.size
  pub quantum : t.quantum ≡ s.quantum
  pub kept :
      (q : ℕ)
      → is_free (s.segment q).type ≡ false
      → q == seg ≡ false
      → (t.segment q ≡ s.segment q) × (count q t.seg_list ≡ count q s.seg_list)

abbrev pub Blind : (Segment → ℕ) → Type 0
Blind w = (g : Segment) → is_free g.type ≡ true → w g ≡ 0

pub free-span : (t : SegmentType) → is_free t ≡ true → is_span t ≡ false
free-span free e = refl
free-span used e = refl
free-span span e = cc

-- One of two neighbours is filed and free, and the other is `seg`.
pub record Meets (s : VMem) (listed p q seg : ℕ) : Type 0 where
  pub next_to : prev_of q s.seg_list ≡ some p
  pub is_listed : is_free (s.segment listed).type ≡ true
  pub which : ((listed ≡ p) × (seg ≡ q)) ⊎ ((listed ≡ q) × (seg ≡ p))

module _ (hz : HzFront) (bits : HzBits) where
  open hz use {remove, count-remove}

  -- `hand` are segments taken from the pool that are not in the arena yet, and `out` are segments
  -- of the arena that are on no freelist and in no bucket.
  pub record Arena (s : VMem) (hand out : List ℕ) : Type 0 where
    pub tiles : Tiles s.segment s.base s.seg_list (s.base + s.size)
    pub small : s.base + s.size < 2 ^ 64
    pub files : Files (size_to_index hz bits) s.segment s.freelists s.hash_tab s.seg_list out
    pub pool : Pool s hand

  -- `seg` is what `freelist_insert` is to file; no other segment that is moved is free.
  pub record Pending (s : VMem) (seg : ℕ) (hand out : List ℕ) : Type 0 where
    pub arena : Arena s hand (seg ∷ out)
    pub on : 1 ≤ count seg s.seg_list
    pub kind : is_span (s.segment seg).type ≡ false
    pub apart : count seg out ≡ 0
    pub taken : (q : ℕ) → 1 ≤ count q out → is_free (s.segment q).type ≡ false

  -- A step that adds a used segment of `n` bytes at `addr`.
  pub record Gives (s t : VMem) (addr n : ℕ) : Type 0 where
    pub arena : Arena t [] []
    pub same : Same s t
    pub sums :
        (w : Segment → ℕ)
        → Blind w
        → total w t.segment t.seg_list
          ≡ w (record { base = addr; size = n; type = used }) + total w s.segment s.seg_list

  -- A step that leaves every segment as it was.
  pub record Leaves (s t : VMem) : Type 0 where
    pub arena : Arena t [] []
    pub same : Same s t
    pub segments : t.segment ≡ s.segment
    pub list : t.seg_list ≡ s.seg_list
