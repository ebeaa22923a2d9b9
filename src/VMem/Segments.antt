-- ===== src/VMem/Segments.antt =====
-- src/mem/vmem.hpp, and of vmem.cpp the segments themselves: their hooks, their hash and their pool.
use Prim.Native.Nat.{bit_and, bit_xor}
use crescent.Common.{
  ℕ, zero, suc, ◌+◌, ◌-◌, ◌*◌, ◌/◌, ◌%◌, ◌^◌, Bool, true, false, Option, none, some, List, [], ◌∷◌,
  ◌==◌, if◌then◌else◌, add64, sub64,
}

pub data SegmentType : Type 0 where
  free used span : SegmentType

pub record Segment : Type 0 where
  pub base : ℕ
  pub size : ℕ
  pub type : SegmentType

-- `pages` is what `alloc_page` will return, in order, until it returns null.
pub record VMem : Type 0 where
  pub segment : ℕ → Segment
  pub freelists : ℕ → List ℕ
  pub seg_list : List ℕ
  pub hash_tab : ℕ → List ℕ
  pub free_segs : List ℕ
  pub seg_page_list : List ℕ
  pub base : ℕ
  pub size : ℕ
  pub quantum : ℕ
  pub pages : List ℕ

abbrev pub freelist_count : ℕ
freelist_count = 64

abbrev pub hashtab_count : ℕ
hashtab_count = 16

-- `sizeof(Segment)`, and how many follow the first on a page.
abbrev pub segment_size : ℕ
segment_size = 56

abbrev pub spare_segments : ℕ
spare_segments = 72

-- `ALIGNUP` for a `usize`.
abbrev pub align_up : ℕ → ℕ → ℕ
align_up value align = bit_and (add64 value (sub64 align 1)) (2 ^ 64 - 1 - sub64 align 1)

abbrev pub mul64 : ℕ → ℕ → ℕ
mul64 a b = (a * b) % 2 ^ 64

abbrev pub fold33 : ℕ → ℕ
fold33 key = bit_xor key (key / 2 ^ 33)

unfoldable pub murmur64 : ℕ → ℕ
murmur64 key = fold33 (mul64 (fold33 (mul64 (fold33 key) 0xFF51AFD7ED558CCD)) 0xC4CEB9FE1A85EC53)

unfoldable pub bucket : ℕ → ℕ
unfolding murmur64
bucket key = murmur64 key % hashtab_count

abbrev pub is_free : SegmentType → Bool
is_free free = true
is_free used = false
is_free span = false

abbrev pub is_used : SegmentType → Bool
is_used free = false
is_used used = true
is_used span = false

abbrev pub is_span : SegmentType → Bool
is_span free = false
is_span used = false
is_span span = true

-- A write through a pointer, and to an element of an array of lists.
abbrev pub put {ℓ} : {A : Type ℓ} → (ℕ → A) → ℕ → A → ℕ → A
put f p a q = if q == p then a else f q

-- `seg_list_hook.prev` and `seg_list_hook.next`.
unfoldable pub prev_of : ℕ → List ℕ → Option ℕ
prev_of p [] = none
prev_of p (x ∷ []) = none
prev_of p (x ∷ y ∷ l) = if p == y then some x else prev_of p (y ∷ l)

unfoldable pub next_of : ℕ → List ℕ → Option ℕ
next_of p [] = none
next_of p (x ∷ []) = none
next_of p (x ∷ y ∷ l) = if p == x then some y else next_of p (y ∷ l)

-- The two writes to the neighbours' hooks that take a segment off the list, and those that put a
-- segment before another.
unfoldable pub unhook : ℕ → List ℕ → List ℕ
unhook p [] = []
unhook p (x ∷ l) = if p == x then l else x ∷ unhook p l

unfoldable pub hook_before : ℕ → ℕ → List ℕ → List ℕ
hook_before p new [] = []
hook_before p new (x ∷ l) = if p == x then new ∷ x ∷ l else x ∷ hook_before p new l

-- The loop of `seg_alloc` over a new page, after its first `n` turns.
unfoldable pub spare : ℕ → ℕ → List ℕ
spare page zero = []
spare page (suc n) = (page + segment_size * suc n) ∷ spare page n

-- `seg_alloc`, from the list of free segments and the pages to come. The first segment of a page
-- only links the pages.
abbrev pub draw : VMem → List ℕ → List ℕ → VMem × Option ℕ
draw s (seg ∷ rest) pages = (record s { free_segs = rest }, some seg)
draw s [] [] = (s, none)
draw s [] (page ∷ pages) = (
  record s {
    pages = pages;
    seg_page_list = page ∷ s.seg_page_list;
    free_segs = spare page (spare_segments - 1);
  },
  some (page + segment_size * spare_segments),
)

unfoldable pub seg_alloc : VMem → VMem × Option ℕ
seg_alloc s = draw s s.free_segs s.pages

abbrev pub seg_free : VMem → ℕ → VMem
seg_free s seg = record s { free_segs = seg ∷ s.free_segs }

-- What follows a call that may return null, and an attempt that may return 0.
abbrev pub on_null {ℓ} : {A : Type ℓ} → VMem × Option ℕ → (VMem → A) → (VMem → ℕ → A) → A
on_null (s, none) f g = f s
on_null (s, some seg) f g = g s seg

abbrev pub on_zero : VMem × ℕ → (VMem → VMem × ℕ) → VMem × ℕ
on_zero (s, zero) f = f s
on_zero (s, suc addr) f = (s, suc addr)
