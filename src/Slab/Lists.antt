-- ===== src/Slab/Lists.antt =====
-- Which freelist `alloc` and `dealloc` of src/mem/malloc.cpp use.
use crescent.Common.{
  ℕ, ◌≤◌, ◌<◌, ◌≡◌, ◌++◌, refl, sym, ap, ◌∙◌, arith, true, false, List, [], ◌∷◌, some, leb,
}
use mathlib.Core.List.{append_assoc, append-nil}
use crescent.HzList.{HzList}
use crescent.HzFront.{HzFront}
use crescent.Slab.{
  SlabAllocator, Freelist, with_list, alloc_from, alloc_in, alloc, dealloc_from, dealloc_in,
  dealloc,
}

-- The lists are for smaller sizes.
abbrev pub Smaller : ℕ → List Freelist → Type 0
Smaller size [] = Unit
Smaller size (l ∷ ls) = (l.size < size) × Smaller size ls

module _ (hz : HzList) (front : HzFront) where
  -- `dealloc` at a list, between others.
  abbrev pub with_freed : List Freelist → List Freelist → SlabAllocator × Freelist → SlabAllocator
  with_freed before after (t, l) = record t { freelists = before ++ l ∷ after }

  alloc_in-first :
      (s : SlabAllocator) (size : ℕ) (past before after : List Freelist) (l : Freelist)
      → Smaller size before
      → size ≤ l.size
      → alloc_in hz front s size past (before ++ l ∷ after)
        ≡ with_list hz front (past ++ before) after (alloc_from hz front s l)
  unfolding alloc_in
  alloc_in-first s size past [] after l small fits =
      let yes : leb size l.size ≡ true = ground arith in
      rw yes
        (ap (λ k. with_list hz front k after (alloc_from hz front s l)) (sym (append-nil past)))
  alloc_in-first s size past (b ∷ before) after l small fits =
      let no : leb size b.size ≡ false = ground (arith, small.0) in
      rw no (
        alloc_in-first s size (past ++ b ∷ []) before after l small.1 fits
        ∙ ap (λ k. with_list hz front k after (alloc_from hz front s l))
            (append_assoc past (b ∷ []) before))

  alloc_in-none :
      (s : SlabAllocator) (size : ℕ) (past lists : List Freelist)
      → Smaller size lists
      → alloc_in hz front s size past lists ≡ some (s, 0)
  unfolding alloc_in
  alloc_in-none s size past [] small = refl
  alloc_in-none s size past (b ∷ lists) small =
      let no : leb size b.size ≡ false = ground (arith, small.0) in
      rw no (alloc_in-none s size (past ++ b ∷ []) lists small.1)

  dealloc_in-first :
      (s : SlabAllocator) (ptr size : ℕ) (past before after : List Freelist) (l : Freelist)
      → Smaller size before
      → size ≤ l.size
      → dealloc_in hz front s ptr size past (before ++ l ∷ after)
        ≡ with_freed (past ++ before) after (dealloc_from hz front s l ptr)
  unfolding dealloc_in
  dealloc_in-first s ptr size past [] after l small fits =
      let yes : leb size l.size ≡ true = ground arith in
      rw yes (ap (λ k. with_freed k after (dealloc_from hz front s l ptr)) (sym (append-nil past)))
  dealloc_in-first s ptr size past (b ∷ before) after l small fits =
      let no : leb size b.size ≡ false = ground (arith, small.0) in
      rw no (
        dealloc_in-first s ptr size (past ++ b ∷ []) before after l small.1 fits
        ∙ ap (λ k. with_freed k after (dealloc_from hz front s l ptr))
            (append_assoc past (b ∷ []) before))

  -- Without a list whose size suffices `alloc` returns 0 and changes nothing.
  pub alloc-none :
      (s : SlabAllocator) (size : ℕ)
      → Smaller size s.freelists
      → alloc hz front s size ≡ some (s, 0)
  unfolding alloc
  alloc-none s size = alloc_in-none s size [] s.freelists

  -- `alloc` and `dealloc` use the same list, which is the first one whose size suffices, and leave
  -- the others as they are.
  pub alloc-first_list :
      (s : SlabAllocator) (size : ℕ) (before after : List Freelist) (l : Freelist)
      → s.freelists ≡ before ++ l ∷ after
      → Smaller size before
      → size ≤ l.size
      → (alloc hz front s size ≡ with_list hz front before after (alloc_from hz front s l))
        × ((ptr : ℕ)
            → dealloc hz front s ptr size ≡ with_freed before after (dealloc_from hz front s l ptr))
  unfolding alloc dealloc
  alloc-first_list s size before after l at small fits = (
    ap (alloc_in hz front s size []) at ∙ alloc_in-first s size [] before after l small fits,
    λ ptr.
        ap (dealloc_in hz front s ptr size []) at
        ∙ dealloc_in-first s ptr size [] before after l small fits,
  )
