-- ===== src/Page/Tests.antt =====
-- The page allocator at concrete inputs, on a list that adds at the end.
use crescent.Common.{
  ℕ, ◌+◌, ◌≡◌, refl, ◌==◌, if◌then◌else◌, true, false, List, [], ◌∷◌, arith, sum_by,
}
use crescent.HzList.{fifo}
use crescent.Page.{
  Pages, Region, pmalloc, pmalloc_late, pmalloc_in_range, find_in_range, keep_rest, pfree,
  pfree_contiguous, finalize, early_pmalloc,
}
use crescent.Page.Cover.{in_run, cover, IsValid}
use crescent.Page.Single.{
  Allocates, Loses, pmalloc-Allocates, pfree_lem, pfree_contiguous_lem, pmalloc-pfree,
}
use crescent.Page.Range.{AllocatesIn, pmalloc_in_range-AllocatesIn}
use crescent.Page.Handover.{AllAligned, TakesEarly, early_pmalloc-TakesEarly, region_cover}
use crescent.Page.Boot.{calls, is_page, IsEarly, boot_lem}

-- Pages 4, 5 and 6 as one run, and page 9.
abbrev two_runs : Pages
two_runs = record {
  count = λ b. if b == 4 then 3 else if b == 9 then 1 else 0;
  list = 4 ∷ 9 ∷ [];
  regions = [];
  early = false;
}

two_runs-IsValid : IsValid two_runs
two_runs-IsValid = record { once = λ f. ground arith; full = refl }

pmalloc-Allocates_example : Allocates two_runs (pmalloc fifo two_runs)
pmalloc-Allocates_example = pmalloc-Allocates fifo two_runs refl two_runs-IsValid

takes_the_first : (pmalloc fifo two_runs).1 ≡ 0x4000
unfolding pmalloc pmalloc_late keep_rest fifo
takes_the_first = refl

pmalloc_in_range-AllocatesIn_example :
    AllocatesIn fifo 0x5000 0xA000 two_runs (pmalloc_in_range fifo two_runs 0x5000 0xA000)
pmalloc_in_range-AllocatesIn_example =
    pmalloc_in_range-AllocatesIn fifo two_runs 0x5000 0xA000 two_runs-IsValid

-- A run that only overlaps the range is passed over.
takes_the_second : (pmalloc_in_range fifo two_runs 0x5000 0xA000).1 ≡ 0x9000
unfolding pmalloc_in_range find_in_range keep_rest fifo
takes_the_second = refl

pfree_example : Loses (pfree fifo two_runs 0x7000) 7 two_runs × IsValid (pfree fifo two_runs 0x7000)
pfree_example = pfree_lem fifo two_runs 0x7000 two_runs-IsValid refl

pfree_contiguous_example :
    ((f : ℕ) → cover (pfree_contiguous fifo two_runs 0x7000 2) f ≡ in_run 7 2 f + cover two_runs f)
    × IsValid (pfree_contiguous fifo two_runs 0x7000 2)
pfree_contiguous_example =
    pfree_contiguous_lem fifo two_runs 0x7000 2 two_runs-IsValid (omega arith) (λ f. ground arith)

pmalloc-pfree_example :
    cover (pfree fifo (pmalloc fifo two_runs).0 (pmalloc fifo two_runs).1) 4 ≡ cover two_runs 4
pmalloc-pfree_example = pmalloc-pfree fifo two_runs refl two_runs-IsValid 5 (omega arith) 4

abbrev two_regions : List Region
two_regions = record { base = 0x1000; size = 0x2000 } ∷ record { base = 0x8000; size = 0x1000 } ∷ []

abbrev booting : Pages
booting = record { count = λ b. 0; list = []; regions = two_regions; early = true }

two_regions-AllAligned : AllAligned two_regions
two_regions-AllAligned = ((refl, refl, omega arith), ((refl, refl, omega arith), tt))

early_pmalloc-TakesEarly_example : TakesEarly two_regions (early_pmalloc two_regions)
early_pmalloc-TakesEarly_example = early_pmalloc-TakesEarly two_regions two_regions-AllAligned

booting-IsEarly : IsEarly fifo booting
booting-IsEarly = record {
  early = refl;
  empty = refl;
  aligned = two_regions-AllAligned;
  once = λ f. ground arith;
  no_null = refl;
}

boot_example :
    let (s', pages) = calls fifo 2 booting in
    ((f : ℕ)
      → region_cover two_regions f ≡ sum_by (is_page fifo f) pages + cover (finalize fifo s') f)
    × IsValid (finalize fifo s')
boot_example = boot_lem fifo 2 booting booting-IsEarly
