-- ===== src/VMem/Tests.antt =====
-- An arena of src/mem/vmem.cpp at 0x1000, of 0x10000 bytes: calls of it, and the properties there.
use crescent.Common.{
  if◌then◌else◌, ◌==◌, ℕ, ◌≡◌, ◌+◌, ◌≤◌, ◌-◌, ◌^◌, ◌⊎◌, refl, Option, none, some, List, [], ◌∷◌,
  map, arith,
}
use crescent.HzFront.{linked, plain_bits}
use crescent.VMem.Arena.{Arena}
use crescent.VMem.Use.{in_use, Used}
use crescent.VMem.Runs.{
  Outcome, xalloc-Outcome, xfree-xalloc, Ordered, Steps-Follows, step, start, allocates,
}
use crescent.VMem.Free.{Freeing, xfree-Freeing}
use crescent.VMem.Found.{xalloc_finds}
use crescent.VMem.Turns.{Ends, freelist_insert-Ends}
use crescent.VMem.Segments.{used, unhook, prev_of, next_of}
use crescent.VMem.{
  VMem, freelist_insert, joined_prev, joined_next, join, spare, size_to_index, hook_before, prev_of,
  next_of, free, xalloc, xfree, init,
}
use crescent.VMem.Start.{Blank, init-Arena, Steps-apart}

abbrev blank : VMem
blank = record {
  segment = λ p. record { base = 0; size = 0; type = free };
  freelists = λ i. [];
  seg_list = [];
  hash_tab = λ i. [];
  free_segs = [];
  seg_page_list = [];
  base = 0;
  size = 0;
  quantum = 0;
  pages = 0x100000 ∷ 0x101000 ∷ [];
}

abbrev arena_of : Option VMem → VMem
arena_of none = blank
arena_of (some s) = s

abbrev arena : VMem
arena = arena_of (init linked plain_bits blank 0x1000 0x10000 0x1000)

abbrev layout : VMem → List (ℕ × ℕ)
layout s = map (λ p. ((s.segment p).base, (s.segment p).size)) s.seg_list

init_test : init linked plain_bits blank 0x1000 0x10000 0x1000 ≡ some arena
unfolding init spare
init_test = refl

blank-Blank : Blank blank
blank-Blank = record {
  no_segments = refl;
  no_free = λ i. refl;
  no_used = λ i. refl;
  pool = record {
    pooled = λ p. omega arith;
    fresh = λ page. ground arith;
    aligned = λ page on. ground arith;
  };
}

init-Arena_example :
    Arena linked plain_bits arena [] []
    × (arena.base ≡ 0x1000)
    × (arena.size ≡ 0x10000)
    × ((a m : ℕ) → in_use arena a m ≡ 0)
init-Arena_example =
    init-Arena linked plain_bits blank 0x1000 0x10000 0x1000 blank-Blank (omega arith) (omega arith)
      arena init_test

ordered : Arena linked plain_bits arena [] []
ordered =
    (init-Arena linked plain_bits blank 0x1000 0x10000 0x1000 blank-Blank (omega arith)
      (omega arith) arena init_test).0

-- 0x1800 bytes anywhere.
abbrev taken : VMem × ℕ
taken = xalloc linked plain_bits arena 0x1800 0 0

taken_test : taken.1 ≡ 0x1000
unfolding init spare xalloc size_to_index linked plain_bits hook_before prev_of next_of
taken_test = refl

taken_layout : layout taken.0 ≡ (0x1000, 0x10000) ∷ (0x1000, 0x2000) ∷ (0x3000, 0xe000) ∷ []
unfolding init spare xalloc size_to_index linked plain_bits hook_before prev_of next_of
taken_layout = refl

-- The same at a given address.
placed_layout :
    layout (xalloc linked plain_bits arena 0x1800 0x8000 0x8000).0
    ≡ (0x1000, 0x10000) ∷ (0x1000, 0x7000) ∷ (0x8000, 0x2000) ∷ (0xa000, 0x7000) ∷ []
unfolding init spare xalloc size_to_index linked plain_bits hook_before prev_of next_of
placed_layout = refl

xalloc-Outcome_example : Outcome linked plain_bits 0x2000 0 (2 ^ 64 - 1) arena taken
unfolding init spare
xalloc-Outcome_example = xalloc-Outcome linked plain_bits arena 0x1800 0 0 ordered (omega arith)

xfree-xalloc_example :
    (u : VMem) × (xfree linked plain_bits taken.0 taken.1 0x1800 ≡ some u)
    × Arena linked plain_bits u [] []
    × ((a m : ℕ) → in_use u a m ≡ in_use arena a m)
unfolding init spare
xfree-xalloc_example =
    xfree-xalloc linked plain_bits arena 0x1800 0 0 ordered (omega arith)
      (omega (arith, taken_test))

taken-Ordered : Ordered linked plain_bits taken.0
unfolding init spare
taken-Ordered =
    (Steps-Follows linked plain_bits arena taken.0 (ordered, omega arith)
      (step start (allocates 0x1800 0 0))).0

xfree-Freeing_example : Freeing linked plain_bits taken.0 taken-Ordered.0 0x1000 0x1800
xfree-Freeing_example = xfree-Freeing linked plain_bits taken.0 taken-Ordered.0 0x1000 0x1800

-- A second range is taken at 0x8000.
abbrev taken_two : VMem × ℕ
taken_two = xalloc linked plain_bits taken.0 0x1000 0x8000 0x8000

first_used : Used taken_two.0 0x1000 0x2000 1052496
unfolding init spare xalloc size_to_index linked plain_bits hook_before prev_of next_of
first_used = record { on = omega arith; type = refl; at = refl; room = refl }

second_used : Used taken_two.0 0x8000 0x1000 1052440
unfolding init spare xalloc size_to_index linked plain_bits hook_before prev_of next_of
second_used = record { on = omega arith; type = refl; at = refl; room = refl }

Steps-apart_example :
    ((0x1000 + 0x2000 ≤ 0x8000) ⊎ (0x8000 + 0x1000 ≤ 0x1000))
    × (0x1000 ≤ 0x1000)
    × (0x1000 + 0x2000 ≤ 0x1000 + 0x10000)
Steps-apart_example =
    Steps-apart linked plain_bits blank arena taken_two.0 0x1000 0x10000 0x1000 blank-Blank
      (omega arith) (omega arith) (omega arith) init_test
      (step (step start (allocates 0x1800 0 0)) (allocates 0x1000 0x8000 0x8000)) 1052496 1052440
      0x1000 0x2000 0x8000 0x1000 first_used second_used (λ e. omega (arith, e))

-- A segment between two that are free, and joined with both.
abbrev neighbours : VMem
neighbours = record blank {
  segment = λ p.
      if p == 8
      then record { base = 0x1000; size = 0x1000; type = free }
      else if p == 16
      then record { base = 0x2000; size = 0x1000; type = used }
      else record { base = 0x3000; size = 0x1000; type = free };
  seg_list = 8 ∷ 16 ∷ 24 ∷ [];
  freelists = λ i. if i == 12 then 8 ∷ 24 ∷ [] else [];
}

freelist_insert-Ends_example :
    Ends linked plain_bits neighbours 16 (freelist_insert linked plain_bits neighbours 16)
freelist_insert-Ends_example =
    freelist_insert-Ends linked plain_bits neighbours 16 (λ q. ground arith)

joins_both : (freelist_insert linked plain_bits neighbours 16).seg_list ≡ 8 ∷ []
unfolding freelist_insert joined_prev joined_next join prev_of next_of unhook linked
joins_both = refl

xalloc_finds_example : 1 ≤ (xalloc linked plain_bits arena 0x1800 0 0).1
unfolding init spare linked
xalloc_finds_example =
    xalloc_finds linked plain_bits arena 0x1800 1052552 ordered (omega arith) (omega arith)
      (omega arith) (omega arith) refl (omega arith)
