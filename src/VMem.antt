-- ===== src/VMem.antt =====
-- Virtual memory arenas, src/mem/vmem.cpp. A segment is known by its address, which is not null, and
-- each list that its two hooks put it on is a list of addresses. A function that takes the lock
-- holds it from its first access to its last.
mod Segments
mod Freelists
mod Fit
pub mod Hooks
pub mod Tiles
pub mod Files
pub mod Pool
pub mod Totals
pub mod Arena
pub mod Join
pub mod Coalesce
pub mod Turns
pub mod Held
pub mod Cut
pub mod Hashing
pub mod Place
pub mod Given
pub mod Fitting
pub mod Search
pub mod Use
pub mod Free
pub mod Attempt
pub mod Index
pub mod Found
pub mod Runs
pub mod Start
mod Tests
use Prim.Native.Nat.{bit_and, bit_xor}
use crescent.Common.{
  ℕ, zero, suc, ◌+◌, ◌-◌, ◌*◌, ◌/◌, ◌%◌, ◌^◌, Bool, true, false, ◌&&◌, ◌||◌, not, Option, none,
  some, List, [], ◌∷◌, ltb, leb, ◌==◌, if◌then◌else◌, add64, sub64, sub32, add32, length,
}
use crescent.HzFront.{HzFront, HzBits}
unfoldable pub use Segments.*
unfoldable pub use Freelists.*
unfoldable pub use Fit.*

-- `max` as `xalloc` sets it, and its `has_min_max`.
abbrev pub upper_bound : ℕ → ℕ → ℕ → ℕ
upper_bound low limit size =
    if limit == 0 then 2 ^ 64 - 1 else (if limit == low then add64 low size else limit)

abbrev pub has_bounds : ℕ → ℕ → Bool
has_bounds low high = not (low == 0) || not (high == 0)

module _ (hz : HzFront) (bits : HzBits) where
  open hz use {push, push_front, remove, insert_before}
  open bits use {countl_zero, has_single_bit, lesser, greater}

  module _ (size low high : ℕ) where
    -- The loop over a list whose first segment is too small.
    unfoldable pub walk : ℕ → VMem → List ℕ → VMem × ℕ
    unfolding seg_fit
    walk i s [] = (s, 0)
    walk i s (seg ∷ l) =
        on_zero
          (if leb size (s.segment seg).size
            then seg_fit hz bits i false size low high s seg
            else (s, 0))
          (λ t. walk i t l)

    -- One turn of the loop over the freelists, where the list is what is given.
    unfoldable pub try_list : Bool → ℕ → VMem → List ℕ → VMem × ℕ
    unfolding walk
    try_list has_min_max i s [] = (s, 0)
    try_list has_min_max i s (seg ∷ rest) =
        let popped = record s { freelists = put s.freelists i rest } in
        if leb size (s.segment seg).size
        then seg_fit hz bits i true size low high popped seg
        else (if has_min_max
            then (let list = push_front rest seg in
                walk i (record s { freelists = put s.freelists i list }) list)
            else (popped, 0))

    -- The loop, from freelist `i` with `n` to go.
    unfoldable pub search : Bool → ℕ → ℕ → VMem → VMem × ℕ
    unfolding try_list
    search has_min_max zero i s = (s, 0)
    search has_min_max (suc n) i s =
        on_zero (try_list has_min_max i s (s.freelists i)) (search has_min_max n (suc i))

  -- `xalloc`, which returns 0 if it finds no room.
  unfoldable pub xalloc : VMem → ℕ → ℕ → ℕ → VMem × ℕ
  unfolding search
  xalloc s wanted low limit =
      let size = align_up wanted s.quantum in
      let high = upper_bound low limit size in
      let has_min_max = has_bounds low high in
      let index =
        if not has_min_max && not (has_single_bit size)
        then add32 (size_to_index hz bits size) 1
        else size_to_index hz bits size in
      search size low high has_min_max (freelist_count - index) index s

  -- `xfree`. A size other than the allocated one fails an assertion.
  unfoldable pub xfree : VMem → ℕ → ℕ → Option VMem
  unfolding freelist_insert
  xfree s ptr size = on_null (hashtab_remove hz bits s ptr) some (λ t seg.
      if (t.segment seg).size == align_up size t.quantum
      then some (freelist_insert hz bits t seg)
      else none)

  -- `init` of an arena in which nothing is set, if both segments can be had: it tests neither.
  unfoldable pub init : VMem → ℕ → ℕ → ℕ → Option VMem
  unfolding seg_alloc
  init s base size quantum =
      on_null (seg_alloc (record s { base = base; size = size; quantum = quantum })) (λ t. none)
        (λ t whole.
          on_null (seg_alloc t) (λ u. none)
            (λ u first. some (record u {
              segment =
                  put (put u.segment whole (record { base = base; size = size; type = span })) first
                    (record { base = base; size = size; type = free });
              seg_list = push (push u.seg_list whole) first;
              freelists =
                  put u.freelists (size_to_index hz bits size)
                    (push (u.freelists (size_to_index hz bits size)) first);
            })))

-- `destroy`: the pages go back to where `alloc_page` gets them.
abbrev pub give_pages : List ℕ → List ℕ → List ℕ
give_pages [] pages = pages
give_pages (page ∷ l) pages = give_pages l (page ∷ pages)

-- With `assert_allocations`, a bucket that is not empty fails an assertion.
abbrev pub all_empty : ℕ → (ℕ → List ℕ) → Bool
all_empty zero hash_tab = true
all_empty (suc n) hash_tab = length (hash_tab n) == 0 && all_empty n hash_tab

unfoldable pub destroy : VMem → Bool → Option VMem
destroy s assert_allocations =
    if assert_allocations && not (all_empty hashtab_count s.hash_tab)
    then none
    else some (record s {
      pages = give_pages s.seg_page_list s.pages;
      seg_page_list = [];
      free_segs = [];
      seg_list = [];
      freelists = λ i. if ltb i freelist_count then [] else s.freelists i;
    })
