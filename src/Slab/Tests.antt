-- ===== src/Slab/Tests.antt =====
-- A freelist of src/mem/malloc.cpp for nodes of 1024 bytes: calls of it, and the properties there.
use crescent.Common.{
  ◌⊎◌, ◌+◌, ◌/◌, if◌then◌else◌, ℕ, ◌≡◌, ◌≤◌, refl, Bool, false, Option, none, some, [], ◌∷◌, arith,
  ◌==◌,
}
use crescent.HzList.{fifo}
use crescent.HzFront.{linked}
use crescent.Page.{Pages}
use crescent.Slab.{
  SlabAllocator, Freelist, alloc, dealloc, alloc_in, dealloc_in, alloc_from, dealloc_from, nodes,
  capacity, empty_lists, sizes,
}
use crescent.Slab.Invariant.{IsSlab, live}
use crescent.HzFront.{count}
use crescent.Page.{page_size}
use crescent.Page.Cover.{cover}
use crescent.VMem.{unhook}
use crescent.Slab.Runs.{Steps-disjoint, start, allocates, frees}
use crescent.Slab.{with_list}
use crescent.Slab.Lists.{with_freed, alloc-first_list}
use crescent.Slab.Outcome.{Serves, GivesBack}
use crescent.Slab.Alloc.{alloc_from-Serves}
use crescent.Slab.Dealloc.{dealloc_from-GivesBack}

abbrev two_pages : Pages
two_pages = record {
  count = λ b. if b == 4 then 2 else 0;
  list = 4 ∷ [];
  regions = [];
  early = false;
}

abbrev fresh : SlabAllocator
fresh = record {
  free = two_pages;
  slab = λ p. record { count = 0; freelist = [] };
  freelists = empty_lists sizes;
}

abbrev of_1024 : Freelist
of_1024 = record { pages = []; size = 1024 }

abbrev nobody : ℕ → Bool
nobody p = false

fresh-IsSlab : IsSlab fresh of_1024 nobody
unfolding capacity
fresh-IsSlab = record {
  some_room = omega arith;
  two = omega arith;
  fits = omega arith;
  late = refl;
  valid = record { once = λ f. ground arith; full = refl };
  no_null = refl;
  no_zero = refl;
  apart = λ p mine. ground (arith, mine);
  filled = λ p mine. ground (arith, mine);
  chain = λ p q mine. ground (arith, mine);
  listed = λ p. refl;
}

alloc_from-Serves_example : Serves fresh of_1024 nobody (alloc_from fifo linked fresh of_1024)
alloc_from-Serves_example = alloc_from-Serves fifo linked fresh of_1024 nobody fresh-IsSlab

-- A page of which two nodes are in use.
abbrev used : SlabAllocator
used = record {
  free = two_pages;
  slab = λ p.
      if p == 9
      then record { count = 2; freelist = 0x9000 ∷ 0x9C00 ∷ [] }
      else record { count = 0; freelist = [] };
  freelists = empty_lists sizes;
}

abbrev listed : Freelist
listed = record { pages = 9 ∷ []; size = 1024 }

abbrev nine : ℕ → Bool
nine p = p == 9

used-IsSlab : IsSlab used listed nine
unfolding capacity nodes
used-IsSlab = record {
  some_room = omega arith;
  two = omega arith;
  fits = omega arith;
  late = refl;
  valid = record { once = λ f. ground arith; full = refl };
  no_null = refl;
  no_zero = refl;
  apart = λ p mine. ground (arith, mine);
  filled = λ p mine. ground (arith, mine);
  chain = λ p q mine. ground (arith, mine);
  listed = λ p. ground arith;
}

is_used : 1 ≤ live used listed nine 0x9400
unfolding capacity nodes
is_used = omega arith

dealloc_from-GivesBack_example :
    GivesBack used listed nine (dealloc_from fifo linked used listed 0x9400) 0x9400
dealloc_from-GivesBack_example =
    dealloc_from-GivesBack fifo linked used listed nine used-IsSlab 0x9400 is_used

-- 600 bytes come from the list for 1024, and go back to it.
abbrev two_lists : SlabAllocator
two_lists = record used { freelists = record { pages = []; size = 512 } ∷ listed ∷ [] }

abbrev given : Option (SlabAllocator × ℕ) → ℕ
given none = 0
given (some (s, addr)) = addr

takes_the_first_node : given (alloc fifo linked two_lists 600) ≡ 0x9000
unfolding alloc alloc_in alloc_from capacity
takes_the_first_node = refl

puts_it_first :
    ((dealloc fifo linked two_lists 0x9400 600).slab 9).freelist ≡ 0x9400 ∷ 0x9000 ∷ 0x9C00 ∷ []
unfolding dealloc dealloc_in dealloc_from capacity
puts_it_first = refl

both_held : (q : ℕ) → live used listed nine q ≡ count q (0x9400 ∷ 0x9800 ∷ [])
unfolding capacity nodes
both_held q = ground arith

-- The node at 0x9000 is taken, and the one at 0x9400 given back.
abbrev took : SlabAllocator × Freelist
took = (
  record used {
    slab = λ p. if p == 9 then record { count = 3; freelist = 0x9C00 ∷ [] } else used.slab p;
  },
  listed,
)

takes : alloc_from fifo linked used listed ≡ some (took.0, took.1, 0x9000)
unfolding alloc_from capacity
takes = refl

Steps-disjoint_example :
    ((q : ℕ) → count q (0x9000 ∷ 0x9800 ∷ []) ≤ 1)
    × ((p q : ℕ)
        → 1 ≤ count p (0x9000 ∷ 0x9800 ∷ [])
        → 1 ≤ count q (0x9000 ∷ 0x9800 ∷ [])
        → p == q ≡ false
        → (p + 1024 ≤ q) ⊎ (q + 1024 ≤ p))
    × ((q : ℕ)
        → 1 ≤ count q (0x9000 ∷ 0x9800 ∷ [])
        → cover (dealloc_from fifo linked took.0 took.1 0x9400).0.free (q / page_size) ≡ 0)
unfolding unhook
Steps-disjoint_example =
    Steps-disjoint fifo linked used listed nine used-IsSlab (0x9400 ∷ 0x9800 ∷ []) both_held
      (dealloc_from fifo linked took.0 took.1 0x9400).0
      (dealloc_from fifo linked took.0 took.1 0x9400).1 (0x9000 ∷ 0x9800 ∷ [])
      (frees 0x9400 (allocates start takes refl) (omega arith))

alloc-first_list_example :
    (alloc fifo linked two_lists 600
      ≡ with_list fifo linked
          (record { pages = []; size = 512 } ∷ [])
          []
          (alloc_from fifo linked two_lists listed))
    × ((ptr : ℕ)
        → dealloc fifo linked two_lists ptr 600
          ≡ with_freed fifo linked
              (record { pages = []; size = 512 } ∷ [])
              []
              (dealloc_from fifo linked two_lists listed ptr))
alloc-first_list_example =
    alloc-first_list fifo linked two_lists 600 (record { pages = []; size = 512 } ∷ []) [] listed
      refl (omega arith, tt) (omega arith)
