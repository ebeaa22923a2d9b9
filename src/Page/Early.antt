-- ===== src/Page/Early.antt =====
-- src/mem/early_pmalloc.cpp: pages from the memory map of the boot loader, before the allocator.
use crescent.Common.{ℕ, List, [], ◌∷◌, ◌++◌, ◌==◌, if◌then◌else◌, length, add64, sub64}

abbrev pub page_size : ℕ
page_size = 0x1000

pub record Region : Type 0 where
  pub base : ℕ
  pub size : ℕ

-- The length of the array.
abbrev pub max_regions : ℕ
max_regions = 64

-- `early_pmalloc_add_region`; the list is REGIONS up to REGION_COUNT. The 65th region is ignored.
unfoldable pub add_region : List Region → ℕ → ℕ → List Region
add_region s base size =
    if length s == max_regions then s else s ++ record { base = base; size = size } ∷ []

-- One page of a region, in `usize` arithmetic.
abbrev pub take_page : Region → Region
take_page r = record { base = add64 r.base page_size; size = sub64 r.size page_size }

-- `early_pmalloc`: the regions, and the address, which is 0 if there is no page.
unfoldable pub early_pmalloc : List Region → List Region × ℕ
early_pmalloc [] = ([], 0)
early_pmalloc (r ∷ rs) =
    let (rest, page) = early_pmalloc rs in
    if r.size == 0 then (r ∷ rest, page) else (take_page r ∷ rs, r.base)
