-- ===== src/Slab.antt =====
-- The slab allocator behind `kmalloc`, src/mem/malloc.cpp. An address is the physical one, from which
-- `to_virt` differs by a constant. Each call holds the lock of the freelist that it uses.
pub mod Nodes
pub mod Invariant
pub mod Outcome
pub mod Take
pub mod Fresh
pub mod Alloc
pub mod Dealloc
pub mod Runs
pub mod Lists
mod Tests
use crescent.Common.{
  ℕ, zero, suc, ◌+◌, ◌-◌, ◌*◌, ◌/◌, ◌%◌, ◌^◌, Bool, true, false, ◌||◌, Option, none, some, List, [],
  ◌∷◌, ◌++◌, ltb, leb, ◌==◌, if◌then◌else◌, map,
}
use crescent.HzList.{HzList}
use crescent.HzFront.{HzFront}
use crescent.Page.{Pages, page_size, pmalloc, pfree}

-- `slab` of a page: the nodes in use, and the chain of those that are free.
pub record Slab : Type 0 where
  pub count : ℕ
  pub freelist : List ℕ

-- The pages that have a free node, the front of the list first.
pub record Freelist : Type 0 where
  pub pages : List ℕ
  pub size : ℕ

-- The allocator, with the pages of `pmalloc` and the slabs of all pages.
pub record SlabAllocator : Type 0 where
  pub free : Pages
  pub slab : ℕ → Slab
  pub freelists : List Freelist

abbrev pub sizes : List ℕ
sizes = 16 ∷ 32 ∷ 64 ∷ 128 ∷ 256 ∷ 512 ∷ 1024 ∷ []

-- The constructor.
abbrev pub empty_lists : List ℕ → List Freelist
empty_lists sizes = map (λ n. record { pages = []; size = n }) sizes

-- How many nodes a page has.
unfoldable pub capacity : ℕ → ℕ
capacity size = page_size / size

abbrev pub put_slab : (ℕ → Slab) → ℕ → Slab → ℕ → Slab
put_slab slab page g q = if q == page then g else slab q

-- The chain of a new page after `n` turns of the loop.
unfoldable pub nodes : ℕ → ℕ → ℕ → List ℕ
nodes phys size zero = []
nodes phys size (suc n) = (phys + n * size) ∷ nodes phys size n

-- An address, which is 0 if there is none, in a state; `none` where an assertion fails.
abbrev pub Result : Type 0
Result = Option (SlabAllocator × Freelist × ℕ)

module _ (hz : HzList) (front : HzFront) where
  open front use {push_front, remove}

  -- `alloc` from the page at the front of a list: the count is a `u16`.
  abbrev pub take_node : SlabAllocator → Freelist → ℕ → List ℕ → List ℕ → Result
  take_node s l page rest [] = none
  take_node s l page rest (node ∷ chain) =
      let count = ((s.slab page).count + 1) % 2 ^ 16 in
      if (s.slab page).count == capacity l.size
      then none
      else some (
        record s { slab = put_slab s.slab page (record { count = count; freelist = chain }) },
        record l { pages = if count == capacity l.size then rest else page ∷ rest },
        node,
      )

  -- `alloc` from a page that `pmalloc` has given, or from none.
  abbrev pub split_page : SlabAllocator → Freelist → ℕ → List ℕ → Result
  split_page s l phys [] = none
  split_page s l phys (node ∷ chain) =
      let page = phys / page_size in
      some (
        record s { slab = put_slab s.slab page (record { count = 1; freelist = chain }) },
        record l { pages = push_front l.pages page },
        node,
      )

  abbrev pub new_page : SlabAllocator → Freelist → Pages × ℕ → Result
  new_page s l (free, phys) =
      if phys == 0
      then some (record s { free = free }, l, 0)
      else split_page (record s { free = free }) l phys (nodes phys l.size (capacity l.size))

  -- The body of the loop of `alloc` at the list whose size suffices.
  abbrev pub alloc_at : SlabAllocator → Freelist → List ℕ → Result
  alloc_at s l (page ∷ rest) = take_node s l page rest (s.slab page).freelist
  alloc_at s l [] = new_page s l (pmalloc hz s.free)

  unfoldable pub alloc_from : SlabAllocator → Freelist → Result
  alloc_from s l = alloc_at s l l.pages

  abbrev pub with_list : List Freelist → List Freelist → Result → Option (SlabAllocator × ℕ)
  with_list before after none = none
  with_list before after (some (s, l, addr)) =
      some (record s { freelists = before ++ l ∷ after }, addr)

  -- The loop of `alloc`, past the lists of `before`.
  unfoldable pub alloc_in :
      SlabAllocator → ℕ → List Freelist → List Freelist → Option (SlabAllocator × ℕ)
  unfolding alloc_from
  alloc_in s size before [] = some (s, 0)
  alloc_in s size before (l ∷ after) =
      if leb size l.size
      then with_list before after (alloc_from s l)
      else alloc_in s size (before ++ l ∷ []) after

  -- `SlabAllocator::alloc`.
  unfoldable pub alloc : SlabAllocator → ℕ → Option (SlabAllocator × ℕ)
  unfolding alloc_in
  alloc s size = alloc_in s size [] s.freelists

  -- `dealloc` of the last node in use on a page, and of another one, where `count` is what is left.
  abbrev pub free_page : SlabAllocator → Freelist → ℕ → SlabAllocator × Freelist
  free_page s l page = (
    record s {
      free = pfree hz s.free (page * page_size);
      slab = put_slab s.slab page (record (s.slab page) { count = 0 });
    },
    record l { pages = remove l.pages page },
  )

  abbrev pub free_node : SlabAllocator → Freelist → ℕ → ℕ → ℕ → SlabAllocator × Freelist
  free_node s l page count ptr = (
    record s {
      slab =
          put_slab s.slab page (record { count = count; freelist = ptr ∷ (s.slab page).freelist });
    },
    record l { pages = if count == capacity l.size - 1 then push_front l.pages page else l.pages },
  )

  -- The body of the loop of `dealloc` at the list whose size suffices.
  unfoldable pub dealloc_from : SlabAllocator → Freelist → ℕ → SlabAllocator × Freelist
  dealloc_from s l ptr =
      let page = ptr / page_size in
      let count = ((s.slab page).count + 2 ^ 16 - 1) % 2 ^ 16 in
      if count == 0 then free_page s l page else free_node s l page count ptr

  unfoldable pub dealloc_in : SlabAllocator → ℕ → ℕ → List Freelist → List Freelist → SlabAllocator
  unfolding dealloc_from
  dealloc_in s ptr size before [] = s
  dealloc_in s ptr size before (l ∷ after) =
      if leb size l.size
      then (let (t, l') = dealloc_from s l ptr in record t { freelists = before ++ l' ∷ after })
      else dealloc_in s ptr size (before ++ l ∷ []) after

  -- `SlabAllocator::dealloc`.
  unfoldable pub dealloc : SlabAllocator → ℕ → ℕ → SlabAllocator
  unfolding dealloc_in
  dealloc s ptr size = dealloc_in s ptr size [] s.freelists
