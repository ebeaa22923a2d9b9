-- ===== src/Page.antt =====
-- The physical page allocator, src/mem/pmalloc.cpp and early_pmalloc.cpp. A page is its number, so
-- PAGE_REGION[n] is page n, at the physical address n * PAGE_SIZE. Each function holds the lock
-- from its first access to its last.
mod Early
pub mod Cover
pub mod Single
pub mod Range
pub mod Handover
pub mod Boot
mod Tests
use crescent.Common.{
  ℕ, zero, suc, ◌+◌, ◌-◌, ◌*◌, ◌/◌, Bool, true, false, ◌&&◌, Option, none, some, List, [], ◌∷◌, ltb,
  leb, ◌==◌, if◌then◌else◌,
}
use crescent.HzList.{HzList}
pub use Early.{page_size, Region, add_region, early_pmalloc, max_regions, take_page}

-- `pm.count` of the pages that start a free run, `LIST`, and the early phase.
pub record Pages : Type 0 where
  pub count : ℕ → ℕ
  pub list : List ℕ
  pub regions : List Region
  pub early : Bool

abbrev pub set_count : (ℕ → ℕ) → ℕ → ℕ → ℕ → ℕ
set_count count p n q = if q == p then n else count q

module _ (hz : HzList) where
  open hz use {push, pop, remove}

  -- `pmalloc_add_mem`.
  pub add_mem : Pages → ℕ → ℕ → Pages
  add_mem s base size = record s {
    count = set_count s.count (base / page_size) (size / page_size);
    list = push (base / page_size) s.list;
  }

  -- What is left of the run of `page` goes back, once `page` is off the list.
  pub keep_rest : Pages → ℕ → Pages
  keep_rest s page =
      if ltb 1 (s.count page)
      then record s {
        count = set_count s.count (page + 1) (s.count page - 1);
        list = push (page + 1) s.list;
      }
      else s

  -- `pmalloc` after the early phase.
  pub pmalloc_late : Pages → Pages × ℕ
  unfolding keep_rest
  pmalloc_late s = elim (pop s.list) [
    | none ↦ (s, 0)
    | some (page, rest) ↦ (keep_rest (record s { list = rest }) page, page * page_size)
  ]

  -- `pmalloc`: the address of the page, or 0 if there is none.
  pub pmalloc : Pages → Pages × ℕ
  unfolding pmalloc_late
  pmalloc s =
      if s.early
      then (let (regions, page) = early_pmalloc s.regions in (record s { regions = regions }, page))
      else pmalloc_late s

  -- The loop of `pmalloc_in_range` to the first run that starts in the range.
  pub find_in_range : ℕ → ℕ → List ℕ → Option ℕ
  find_in_range low high [] = none
  find_in_range low high (page ∷ pages) =
      if leb low (page * page_size) && ltb (page * page_size) high
      then some page
      else find_in_range low high pages

  -- `pmalloc_in_range`.
  pub pmalloc_in_range : Pages → ℕ → ℕ → Pages × ℕ
  unfolding keep_rest find_in_range
  pmalloc_in_range s low high = elim (find_in_range low high s.list) [
    | none ↦ (s, 0)
    | some page ↦ (keep_rest (record s { list = remove page s.list }) page, page * page_size)
  ]

  -- `pfree`.
  pub pfree : Pages → ℕ → Pages
  pfree s phys = record s {
    count = set_count s.count (phys / page_size) 1;
    list = push (phys / page_size) s.list;
  }

  -- `pfree_contiguous`.
  pub pfree_contiguous : Pages → ℕ → ℕ → Pages
  pfree_contiguous s phys count = record s {
    count = set_count s.count (phys / page_size) count;
    list = push (phys / page_size) s.list;
  }

  -- The loop of `early_pmalloc_finalize`.
  pub hand_over : List Region → Pages → Pages
  unfolding add_mem
  hand_over [] s = s
  hand_over (r ∷ rs) s = hand_over rs (if r.size == 0 then s else add_mem s r.base r.size)

  -- `early_pmalloc_finalize`.
  pub finalize : Pages → Pages
  unfolding hand_over
  finalize s = record (hand_over s.regions s) { early = false }
