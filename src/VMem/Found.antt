-- ===== src/VMem/Found.antt =====
-- `xalloc` without bounds: it succeeds wherever a free segment is large enough.
use crescent.Common.{
  ℕ, zero, suc, ◌+◌, ◌-◌, ◌≤◌, ◌<◌, ◌^◌, ◌≡◌, ◌⊎◌, inl, inr, refl, sym, ap, ◌∙◌, subst, arith, true,
  false, List, [], ◌∷◌, ◌==◌, leb, Bool-cases, length,
}
use crescent.HzFront.{HzFront, HzBits, count}
use crescent.VMem.{
  VMem, free, put, on_zero, seg_fit, walk, try_list, search, xalloc, align_up, freelist_count,
}
use crescent.VMem.Tiles.{Tiles-room}
use crescent.VMem.Arena.{Arena}
use crescent.VMem.Search.{on-listed, relist-Arena, xalloc-search, index}
use crescent.VMem.Attempt.{Ready, whole, listed-fits, popped-fits}
use crescent.VMem.Index.{index_le, index_below}

module _ (hz : HzFront) (bits : HzBits) where
  on_zero-some : (r : VMem × ℕ) (f : VMem → VMem × ℕ) → 1 ≤ r.1 → 1 ≤ (on_zero r f).1
  on_zero-some (s, zero) f h = absurd (omega (arith, h))
  on_zero-some (s, suc addr) f h = h

  -- Whether a segment of a list is large enough.
  abbrev Big : ℕ → VMem → List ℕ → Type 0
  Big size s l = (p : ℕ) × (1 ≤ count p l) × (size ≤ (s.segment p).size)

  abbrev Small : ℕ → VMem → List ℕ → Type 0
  Small size s l = (p : ℕ) → 1 ≤ count p l → leb size (s.segment p).size ≡ false

  Big-cases : (size : ℕ) (s : VMem) (l : List ℕ) → Big size s l ⊎ Small size s l
  Big-cases size s [] = inr (λ p on. absurd (omega (arith, on)))
  Big-cases size s (x ∷ l) = elim (Bool-cases (leb size (s.segment x).size)) [
    | inl e ↦ inl (x, ground arith, ground arith)
    | inr e ↦ elim (Big-cases size s l) [
      | inl (p, on, big) ↦ inl (p, omega (arith, on), big)
      | inr small ↦ inr (λ p on. elim (Bool-cases (p == x)) [
        | inl here ↦
            let same : p ≡ x = ground arith in ap (λ k. leb size (s.segment k).size) same ∙ e
        | inr later ↦ small p (ground arith)
      ])
    ]
  ]

  module _ (size : ℕ) (some_room : 1 ≤ size) where
    -- A segment that is large enough is not one that is too small.
    elsewhere :
        (s : VMem) (x : ℕ) (l : List ℕ) (p : ℕ)
        → leb size (s.segment x).size ≡ false
        → size ≤ (s.segment p).size
        → 1 ≤ count p (x ∷ l)
        → 1 ≤ count p l
    elsewhere s x l p e big there = elim (Bool-cases (p == x)) [
      | inl here ↦
          let same : p ≡ x = ground arith in
          absurd (ground (arith, e, big, ap (λ k. (s.segment k).size) same))
      | inr later ↦ ground arith
    ]

    walk-found :
        (i : ℕ) (s : VMem) (l : List ℕ)
        → 1 ≤ s.base
        → Arena hz bits s [] []
        → Ready s
        → ((q : ℕ) → 1 ≤ count q l → 1 ≤ count q (s.freelists i))
        → Big size s l
        → 1 ≤ (walk hz bits size 0 whole i s l).1
    unfolding walk
    walk-found i s [] positive v ready on (p, there, big) = absurd (omega (arith, there))
    walk-found i s (x ∷ l) positive v ready on (p, there, big) =
        elim (Bool-cases (leb size (s.segment x).size)) [
          | inl e ↦ rw e (
              on_zero-some (seg_fit hz bits i false size 0 whole s x)
                (λ t. walk hz bits size 0 whole i t l)
                (listed-fits hz bits size some_room s v i x (on x (ground arith)) positive ready
                  (ground arith)))
          | inr e ↦ rw e (
              walk-found i s l positive v ready (λ q m. on q (omega (arith, m)))
                (p, elsewhere s x l p e big there, big))
        ]

    walk-Small :
        (i : ℕ) (s : VMem) (l : List ℕ) → Small size s l → walk hz bits size 0 whole i s l ≡ (s, 0)
    unfolding walk
    walk-Small i s [] small = refl
    walk-Small i s (x ∷ l) small =
        rw (small x (ground arith)) (walk-Small i s l (λ q m. small q (omega (arith, m))))

    -- A turn of the loop over the freelists.
    try_list-found :
        (i : ℕ) (s : VMem) (l : List ℕ)
        → s.freelists i ≡ l
        → 1 ≤ s.base
        → Arena hz bits s [] []
        → Ready s
        → Big size s l
        → 1 ≤ (try_list hz bits size 0 whole true i s l).1
    unfolding try_list
    try_list-found i s [] e positive v ready (p, there, big) = absurd (omega (arith, there))
    try_list-found i s (x ∷ l) e positive v ready (p, there, big) =
        elim (Bool-cases (leb size (s.segment x).size)) [
          | inl fits ↦
              rw fits (popped-fits hz bits size some_room s v i x l e positive ready (ground arith))
          | inr small ↦ rw small (
              walk-found i (record s { freelists = put s.freelists i (hz.push_front l x) })
                (hz.push_front l x) positive
                (relist-Arena hz bits s v i (hz.push_front l x) (same x l e)) ready
                (λ q on. ground (arith, on))
                (p, ground (arith, there, ap (count p) (hz.push_front_lem l x)), big))
        ]
      where
        same :
            (x : ℕ) (l : List ℕ)
            → s.freelists i ≡ x ∷ l
            → (q : ℕ) → count q (hz.push_front l x) ≡ count q (s.freelists i)
        same x l e q = ap (count q) (hz.push_front_lem l x) ∙ ap (count q) (sym e)

    -- The same list again, where none is large enough.
    abbrev relisted : ℕ → VMem → List ℕ → VMem
    relisted i s [] = s
    relisted i s (x ∷ l) = record s { freelists = put s.freelists i (hz.push_front l x) }

    try_list-Small :
        (i : ℕ) (s : VMem) (l : List ℕ)
        → Small size s l
        → try_list hz bits size 0 whole true i s l ≡ (relisted i s l, 0)
    unfolding try_list
    try_list-Small i s [] small = refl
    try_list-Small i s (x ∷ l) small = rw (small x (ground arith)) (
        walk-Small i (relisted i s (x ∷ l)) (hz.push_front l x)
          (λ q on. small q (ground (arith, on, ap (count q) (hz.push_front_lem l x)))))

    relisted-Arena :
        (i : ℕ) (s : VMem) (l : List ℕ)
        → s.freelists i ≡ l
        → Arena hz bits s [] []
        → Arena hz bits (relisted i s l) [] []
    relisted-Arena i s [] e v = v
    relisted-Arena i s (x ∷ l) e v =
        relist-Arena hz bits s v i (hz.push_front l x)
          (λ q. ap (count q) (hz.push_front_lem l x) ∙ ap (count q) (sym e))

    -- What a new order of a list leaves.
    relisted_same :
        (i : ℕ) (s : VMem) (l : List ℕ)
        → s.freelists i ≡ l
        → let t = relisted i s l in
          (t.base ≡ s.base)
          × (t.segment ≡ s.segment)
          × (t.free_segs ≡ s.free_segs)
          × (t.pages ≡ s.pages)
          × ((j q : ℕ) → count q (t.freelists j) ≡ count q (s.freelists j))
    relisted_same i s [] e = (refl, refl, refl, refl, λ j q. refl)
    relisted_same i s (x ∷ l) e = (
      refl,
      refl,
      refl,
      refl,
      λ j q. ground (arith, ap (count q) (hz.push_front_lem l x), ap (count q) e),
    )

    search-found :
        (n i : ℕ) (s : VMem) (k p : ℕ)
        → i ≤ k
        → k < i + n
        → 1 ≤ s.base
        → Arena hz bits s [] []
        → Ready s
        → 1 ≤ count p (s.freelists k)
        → size ≤ (s.segment p).size
        → 1 ≤ (search hz bits size 0 whole true n i s).1
    unfolding search
    search-found zero i s k p from below positive v ready there big = absurd (omega arith)
    search-found (suc n) i s k p from below positive v ready there big =
        elim (Big-cases size s (s.freelists i)) [
          | inl found ↦
              on_zero-some (try_list hz bits size 0 whole true i s (s.freelists i))
                (search hz bits size 0 whole true n (suc i))
                (try_list-found i s (s.freelists i) refl positive v ready found)
          | inr small ↦
              let later : suc i ≤ k = past small in
              let (base, segments, segs, pages, counts) = relisted_same i s (s.freelists i) refl in
              subst (λ r. 1 ≤ r.1)
                (sym (
                  ap (λ r. on_zero r (search hz bits size 0 whole true n (suc i)))
                    (try_list-Small i s (s.freelists i) small)))
                (search-found n (suc i) (relisted i s (s.freelists i)) k p later
                  (omega (arith, below)) (omega (arith, base, positive))
                  (relisted-Arena i s (s.freelists i) refl v)
                  (omega (arith, ready, ap length segs, ap length pages))
                  (omega (arith, counts k p, there))
                  (subst (λ f. size ≤ (f p).size) (sym segments) big))
        ]
      where
        past : Small size s (s.freelists i) → suc i ≤ k
        past small = elim (Bool-cases (i == k)) [
          | inl e ↦
              let same : k ≡ i = ground arith in
              let here : 1 ≤ count p (s.freelists i) =
                subst (λ j. 1 ≤ count p (s.freelists j)) same there in
              absurd (ground (arith, small p here, big))
          | inr ne ↦ ground arith
        ]

  -- Without bounds, `xalloc` finds room in an arena that is in order and does not start at 0, if the
  -- size that is asked for, rounded up to the quantum, is not 0, some free segment is at least as
  -- large as it, and a segment can be had for the used part.
  pub xalloc_finds :
      (s : VMem) (wanted p : ℕ)
      → Arena hz bits s [] []
      → 1 ≤ s.base
      → Ready s
      → 1 ≤ align_up wanted s.quantum
      → 1 ≤ count p s.seg_list
      → (s.segment p).type ≡ free
      → align_up wanted s.quantum ≤ (s.segment p).size
      → 1 ≤ (xalloc hz bits s wanted 0 0).1
  xalloc_finds s wanted p v positive ready some_room on kind enough =
      let n = (s.segment p).size in
      let room = Tiles-room s.segment s.base s.seg_list (s.base + s.size) p v.tiles on in
      let small : n < 2 ^ 64 = ground (arith, room.1, v.small, kind) in
      let there : 1 ≤ count p (s.freelists (index hz bits n)) =
        on-listed hz bits s v (index hz bits n) p (ground (arith, kind)) on in
      let below : index hz bits n < freelist_count =
        index_below hz bits (align_up wanted s.quantum) n some_room enough small in
      let from : index hz bits (align_up wanted s.quantum) ≤ index hz bits n =
        index_le hz bits (align_up wanted s.quantum) n some_room enough small in
      subst (λ r. 1 ≤ r.1) (sym (xalloc-search hz bits s v positive wanted 0 0))
        (search-found (align_up wanted s.quantum) some_room
          (freelist_count - index hz bits (align_up wanted s.quantum))
          (index hz bits (align_up wanted s.quantum)) s (index hz bits n) p from
          (omega (arith, below, from)) positive v ready there enough)
