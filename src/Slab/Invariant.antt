-- ===== src/Slab/Invariant.antt =====
-- The invariant of one freelist, and which nodes are in use.
use crescent.Common.{
  ℕ, ◌+◌, ◌-◌, ◌*◌, ◌/◌, ◌≤◌, ◌<◌, ◌^◌, ◌≡◌, Bool, true, false, not, ◌&&◌, ◌==◌, bit, if◌then◌else◌,
  length,
}
use crescent.HzFront.{count}
use crescent.Slab.{SlabAllocator, Freelist, nodes, capacity}
use crescent.Page.{page_size}
use crescent.Page.Cover.{cover, IsValid}

-- Whether a page with `n` nodes in use has one that is free.
abbrev pub has_free : ℕ → ℕ → Bool
has_free size n = not (n == capacity size)

-- The pages of `own` are those of the list `l`, no page that is free, and each has a node in use;
-- the list holds those that have a free node. The free nodes of a page are nodes of it.
pub record IsSlab (s : SlabAllocator) (l : Freelist) (own : ℕ → Bool) : Type 0 where
  pub some_room : 1 ≤ l.size
  pub two : 2 ≤ capacity l.size
  pub fits : capacity l.size < 2 ^ 16
  pub late : s.free.early ≡ false
  pub valid : IsValid s.free
  pub no_null : cover s.free 0 ≡ 0
  pub no_zero : own 0 ≡ false
  pub apart : (page : ℕ) → own page ≡ true → cover s.free page ≡ 0
  pub filled :
      (page : ℕ)
      → own page ≡ true
      → (1 ≤ (s.slab page).count)
        × ((s.slab page).count + length (s.slab page).freelist ≡ capacity l.size)
  pub chain :
      (page q : ℕ)
      → own page ≡ true
      → count q (s.slab page).freelist ≤ count q (nodes (page * page_size) l.size (capacity l.size))
  pub listed :
      (page : ℕ) → count page l.pages ≡ bit (own page && has_free l.size (s.slab page).count)

-- How often a node is in use: it is a node of its page, and not on the chain of the free ones.
abbrev pub in_page : SlabAllocator → Freelist → ℕ → ℕ → ℕ
in_page s l page q =
    count q (nodes (page * page_size) l.size (capacity l.size)) - count q (s.slab page).freelist

abbrev pub live : SlabAllocator → Freelist → (ℕ → Bool) → ℕ → ℕ
live s l own q = if own (q / page_size) then in_page s l (q / page_size) q else 0
