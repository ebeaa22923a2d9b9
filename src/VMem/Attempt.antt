-- ===== src/VMem/Attempt.antt =====
-- `seg_fit` without bounds, which succeeds on a segment that is large enough.
use crescent.Common.{
  ℕ, ◌+◌, ◌-◌, ◌≤◌, ◌^◌, ◌≡◌, inl, inr, refl, sym, ap, ◌∙◌, subst, arith, Bool, true, false, List,
  [], ◌∷◌, none, some, ◌==◌, add64, length,
}
use crescent.HzFront.{HzFront, HzBits, count}
use crescent.VMem.{VMem, put, seg_alloc, draw, seg_fit, size_to_index, split}
use crescent.VMem.Pool.{Draws, seg_alloc-cases}
use crescent.VMem.Files.{in_freelist}
use crescent.VMem.Tiles.{Tiles-room}
use crescent.VMem.Arena.{Arena}
use crescent.VMem.Held.{Held}
use crescent.VMem.Fitting.{seg_fit-outcome, misses, outcome, start, room, Draws-Held, split-at}
use crescent.VMem.Place.{place-Gives}
use crescent.VMem.Search.{listed-Held, popped-Held, listed-home, listed-on}

-- A segment for the used part can be had.
abbrev pub Ready : VMem → Type 0
Ready s = 1 ≤ length s.free_segs + length s.pages

draw-none : (s t : VMem) (l m : List ℕ) → draw s l m ≡ (t, none) → length l + length m ≡ 0
draw-none s t [] [] e = refl
draw-none s t [] (page ∷ m) e = cc
draw-none s t (seg ∷ l) m e = cc

seg_alloc-none : (s : VMem) → seg_alloc s ≡ (s, none) → length s.free_segs + length s.pages ≡ 0
unfolding seg_alloc
seg_alloc-none s e = draw-none s s s.free_segs s.pages e

seg_alloc-Ready :
    (s : VMem) → Ready s → (t : VMem) × (seg : ℕ) × (seg_alloc s ≡ (t, some seg)) × Draws s t seg
seg_alloc-Ready s ready = elim (seg_alloc-cases s) [
  | inr found ↦ found
  | inl e ↦ absurd (omega (arith, ready, seg_alloc-none s e))
]

abbrev pub whole : ℕ
whole = 2 ^ 64 - 1

module _ (hz : HzFront) (bits : HzBits) where
  module _ (i : ℕ) (popped : Bool) (size : ℕ) (s : VMem) (fl : ℕ → List ℕ) (seg : ℕ)
      (h : Held hz bits i popped size 0 whole s fl seg [])
      (home : in_freelist (size_to_index hz bits) (s.segment seg) i ≡ true) (some_room : 1 ≤ size)
      (ready : Ready s) (enough : size ≤ (s.segment seg).size) where
    at_base : start hz bits i popped size 0 whole s fl seg h home some_room ≡ (s.segment seg).base
    at_base = bits.greater_left (s.segment seg).base 0 (omega arith)

    inside : misses hz bits i popped size 0 whole s fl seg h home some_room ≡ false
    inside = ground (
      arith,
      at_base,
      enough,
      room hz bits i popped size 0 whole s fl seg h home some_room,
      bits.lesser_left (add64 (s.segment seg).base (s.segment seg).size) whole,
    )

    split-found :
        (split hz bits i popped size 0 whole s seg
          (start hz bits i popped size 0 whole s fl seg h home some_room)).1
        ≡ (s.segment seg).base
    split-found =
        let (t, new, e, d) = seg_alloc-Ready s ready in
        let same = ap (λ k. k.segment seg) d.same in
        let (g, at) =
          place-Gives hz bits i popped size 0 whole t fl seg new
            (Draws-Held hz bits i popped size 0 whole s t fl seg new [] d h) some_room
            (subst (λ g. size ≤ g.size) (sym same) enough) in
        ap (λ r. r.1)
          (split-at hz bits i popped size 0 whole s seg
            (start hz bits i popped size 0 whole s fl seg h home some_room) t new e
            (ground (arith, at_base)))
        ∙ at
        ∙ ap (λ g. g.base) same

    outcome-found :
        (exact : Bool)
        → (outcome hz bits i popped size 0 whole s fl seg h home some_room false exact).1
          ≡ (s.segment seg).base
    outcome-found true = refl
    outcome-found false = split-found

    seg_fit-found : (seg_fit hz bits i popped size 0 whole s seg).1 ≡ (s.segment seg).base
    seg_fit-found =
        ap (λ r. r.1) (seg_fit-outcome hz bits i popped size 0 whole s fl seg h home some_room)
        ∙ ap
            (λ m.
              (outcome hz bits i popped size 0 whole s fl seg h home some_room m
                ((s.segment seg).size == size)).1)
            inside
        ∙ outcome-found ((s.segment seg).size == size)

  module _ (size : ℕ) (some_room : 1 ≤ size) where
    above :
        (s : VMem)
        → Arena hz bits s [] []
        → (i q : ℕ) → 1 ≤ count q (s.freelists i)
        → 1 ≤ s.base
        → 1 ≤ (s.segment q).base
    above s v i q on positive =
        let room =
          Tiles-room s.segment s.base s.seg_list (s.base + s.size) q v.tiles
            (listed-on hz bits s v i q on) in
        omega (arith, room.0, positive)

    -- `seg_fit` gives the start of a segment on a freelist, also once it is popped.
    pub listed-fits :
        (s : VMem) (v : Arena hz bits s [] []) (i q : ℕ)
        → 1 ≤ count q (s.freelists i)
        → 1 ≤ s.base
        → Ready s
        → size ≤ (s.segment q).size
        → 1 ≤ (seg_fit hz bits i false size 0 whole s q).1
    listed-fits s v i q on positive ready enough =
        let found =
          seg_fit-found i false size s (put s.freelists i (hz.remove (s.freelists i) q)) q
            (listed-Held hz bits size 0 whole some_room s v i q on) (listed-home hz bits s v i q on)
            some_room ready enough in
        omega (arith, found, above s v i q on positive)

    pub popped-fits :
        (s : VMem) (v : Arena hz bits s [] []) (i q : ℕ) (rest : List ℕ)
        → s.freelists i ≡ q ∷ rest
        → 1 ≤ s.base
        → Ready s
        → size ≤ (s.segment q).size
        → 1
          ≤ (seg_fit hz bits i true size 0 whole
              (record s { freelists = put s.freelists i rest })
              q).1
    popped-fits s v i q rest e positive ready enough =
        let on : 1 ≤ count q (s.freelists i) = ground (arith, ap (count q) e) in
        let found =
          seg_fit-found i true size (record s { freelists = put s.freelists i rest })
            (put s.freelists i rest) q (popped-Held hz bits size 0 whole some_room s v i q rest e)
            (listed-home hz bits s v i q on) some_room ready enough in
        omega (arith, found, above s v i q on positive)
