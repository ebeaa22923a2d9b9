-- ===== src/Slab/Outcome.antt =====
-- What `alloc` and `dealloc` of a freelist may do.
use crescent.Common.{ℕ, ◌+◌, ◌/◌, ◌≡◌, ◌⊎◌, Bool, true, false, some, [], ◌==◌, bit}
use crescent.Slab.{SlabAllocator, Freelist, Result}
use crescent.Slab.Invariant.{IsSlab, live}
use crescent.Page.{page_size}
use crescent.Page.Cover.{cover}

-- A node of the list's size is in use that was not, and no other changes; the slabs of other
-- pages are as they were, and each page of the list is one that it had or that was free.
pub record Hands (s : SlabAllocator) (l : Freelist) (own : ℕ → Bool) (t : SlabAllocator)
    (m : Freelist) (node : ℕ) : Type 0 where
  pub owner : ℕ → Bool
  pub inv : IsSlab t m owner
  pub same_size : m.size ≡ l.size
  pub lives : (q : ℕ) → live t m owner q ≡ bit (q == node) + live s l own q
  pub pages : (f : ℕ) → cover t.free f + bit (owner f) ≡ cover s.free f + bit (own f)
  pub others : (page : ℕ) → page == node / page_size ≡ false → t.slab page ≡ s.slab page

-- What `alloc` may do at a list: it gives a node, or 0 where no page is free and the pages of the
-- list have no free node.
abbrev pub Serves : SlabAllocator → Freelist → (ℕ → Bool) → Result → Type 0
Serves s l own r =
    (t : SlabAllocator) × (m : Freelist) × (addr : ℕ) × (r ≡ some (t, m, addr))
    × (((addr ≡ 0)
          × (m ≡ l)
          × (t ≡ s)
          × ((f : ℕ) → cover s.free f ≡ 0)
          × ((page : ℕ) → own page ≡ true → (s.slab page).freelist ≡ []))
        ⊎ Hands s l own t m addr)

-- A node that was in use is not any more, and no other changes; the slabs of other pages are as
-- they were, and each page that the list has no more is free.
pub record GivesBack (s : SlabAllocator) (l : Freelist) (own : ℕ → Bool)
    (r : SlabAllocator × Freelist) (node : ℕ) : Type 0 where
  pub owner : ℕ → Bool
  pub inv : IsSlab r.0 r.1 owner
  pub same_size : r.1.size ≡ l.size
  pub lives : (q : ℕ) → live r.0 r.1 owner q + bit (q == node) ≡ live s l own q
  pub pages : (f : ℕ) → cover r.0.free f + bit (owner f) ≡ cover s.free f + bit (own f)
  pub others : (page : ℕ) → page == node / page_size ≡ false → r.0.slab page ≡ s.slab page
