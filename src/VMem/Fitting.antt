-- ===== src/VMem/Fitting.antt =====
-- `seg_fit`: it gives out room within the bounds, or leaves the arena as it was.
use crescent.Common.{
  ℕ, ◌+◌, ◌≤◌, ◌<◌, ◌^◌, ◌≡◌, inl, inr, refl, sym, ap, ◌∙◌, subst, arith, Bool, true, false, ◌||◌,
  List, [], ◌∷◌, none, some, ◌==◌, ltb, add64, sub64, Bool-cases,
}
use crescent.HzFront.{lesser_le, le_greater, HzFront, HzBits}
use crescent.VMem.Segments.{Segment, VMem, seg_free, seg_alloc}
use crescent.VMem.Freelists.{size_to_index, hashtab_insert}
use crescent.VMem.Fit.{give_back, take_off, cut_front, place, split, seg_fit}
use crescent.VMem.Tiles.{extent, Tiles-room}
use crescent.VMem.Files.{in_freelist}
use crescent.VMem.Pool.{Pool, Draws, seg_alloc-cases}
use crescent.VMem.Arena.{Leaves, free-span}
use crescent.VMem.Held.{Held, give_back-Arena, take_off-Arena}
use crescent.VMem.Cut.{cut_front-Cuts}
use crescent.VMem.Place.{place-Gives}
use crescent.VMem.Hashing.{seg_free-Arena, hashtab_insert-Gives}
-- A step that changes neither the arena nor what is in use.
use crescent.VMem.Given.{Draws-Silent, Fitted, Given, Given-after, Silent-trans}

-- The test of `seg_fit` on what is left of a segment within the bounds.
window :
    (a e size : ℕ)
    → e < 2 ^ 64
    → (ltb e a || ltb (sub64 e a) size) ≡ false
    → (a ≤ e) × (a + size ≤ e)
window a e size small fits = ground arith

module _ (hz : HzFront) (bits : HzBits) where
  open bits use {greater, lesser}

  module _ (i : ℕ) (popped : Bool) (size low high : ℕ) where
    pub Draws-Held :
        (s t : VMem) (fl : ℕ → List ℕ) (seg new : ℕ) (hand : List ℕ)
        → Draws s t new
        → Held hz bits i popped size low high s fl seg hand
        → Held hz bits i popped size low high t fl seg (new ∷ hand)
    Draws-Held s t fl seg new hand d h =
        subst (λ k. Held hz bits i popped size low high k fl seg (new ∷ hand)) (sym d.same)
          (record {
            tiles = h.tiles;
            small = h.small;
            files = h.files;
            pool = subst (λ k. Pool k (new ∷ hand)) d.same (d.draws hand h.pool);
            on = h.on;
            kind = h.kind;
            lifts = h.lifts;
          })

    give_back-Leaves :
        (s : VMem) (fl : ℕ → List ℕ) (seg : ℕ)
        → Held hz bits i popped size low high s fl seg []
        → in_freelist (size_to_index hz bits) (s.segment seg) i ≡ true
        → Leaves hz bits s (give_back hz bits i popped size low high s seg)
    give_back-Leaves s fl seg h home = record {
      arena = give_back-Arena hz bits i popped size low high s fl seg [] h home;
      same = (refl, refl, refl);
      segments = refl;
      list = refl;
    }

    module _ (s : VMem) (seg start : ℕ) where
      split-none :
          seg_alloc s ≡ (s, none)
          → split hz bits i popped size low high s seg start
            ≡ (give_back hz bits i popped size low high s seg, 0)
      unfolding split
      split-none e = rw e refl

      module _ (t : VMem) (new : ℕ) (e : seg_alloc s ≡ (t, some new)) where
        pub split-at :
            start == (s.segment seg).base ≡ true
            → split hz bits i popped size low high s seg start
              ≡ place hz bits i popped size low high t seg new
        unfolding split
        split-at at = rw (e, at) refl

        split-none_front :
            start == (s.segment seg).base ≡ false
            → seg_alloc t ≡ (t, none)
            → split hz bits i popped size low high s seg start
              ≡ (seg_free (give_back hz bits i popped size low high t seg) new, 0)
        unfolding split
        split-none_front at f = rw (e, at, f) refl

        split-front :
            (u : VMem) (front : ℕ)
            → start == (s.segment seg).base ≡ false
            → seg_alloc t ≡ (u, some front)
            → split hz bits i popped size low high s seg start
              ≡ place hz bits i popped size low high
                  (cut_front hz bits i popped size low high u seg front start)
                  seg
                  new
        unfolding split
        split-front u front at f = rw (e, at, f) refl

    place-Given :
        (s : VMem) (fl : ℕ → List ℕ) (seg new start : ℕ)
        → Held hz bits i popped size low high s fl seg (new ∷ [])
        → 1 ≤ size
        → (s.segment seg).base ≡ start
        → size ≤ (s.segment seg).size
        → low ≤ start
        → start + size ≤ high
        → s.base ≤ start
        → Given hz bits size low high s (place hz bits i popped size low high s seg new)
    place-Given s fl seg new start h some_room at enough lower upper inside =
        let (g, e) = place-Gives hz bits i popped size low high s fl seg new h some_room enough in
        (g, omega (arith, e, at, lower), omega (arith, e, at, upper), omega (arith, e, at, inside))

    module _ (s : VMem) (fl : ℕ → List ℕ) (seg start : ℕ)
        (h : Held hz bits i popped size low high s fl seg [])
        (home : in_freelist (size_to_index hz bits) (s.segment seg) i ≡ true) (some_room : 1 ≤ size)
        (from : (s.segment seg).base ≤ start)
        (upto : start + size ≤ (s.segment seg).base + (s.segment seg).size) (lower : low ≤ start)
        (upper : start + size ≤ high) (inside : s.base ≤ start) where
      abbrev After : VMem × ℕ → Type 0
      After = Fitted hz bits size low high s

      -- With one segment in hand.
      module _ (t : VMem) (new : ℕ) (e : seg_alloc s ≡ (t, some new)) (d : Draws s t new) where
        held : Held hz bits i popped size low high t fl seg (new ∷ [])
        held = Draws-Held s t fl seg new [] d h

        same_seg : t.segment seg ≡ s.segment seg
        same_seg = ap (λ k. k.segment seg) d.same

        drawn_at :
            start == (s.segment seg).base ≡ true
            → After (split hz bits i popped size low high s seg start)
        drawn_at at = subst After (sym (split-at s seg start t new e at)) (
            inr (
              Given-after hz bits size low high s t _ (Draws-Silent hz bits s t new d) (
                place-Given t fl seg new start held some_room
                  (ap (λ g. g.base) same_seg ∙ ground arith)
                  (ground (arith, ap (λ g. g.size) same_seg, upto)) lower upper
                  (omega (arith, inside, ap (λ k. k.base) d.same)))))

        short :
            start == (s.segment seg).base ≡ false
            → seg_alloc t ≡ (t, none)
            → After (split hz bits i popped size low high s seg start)
        short at f = subst After (sym (split-none_front s seg start t new e at f)) (
            inl (
              refl,
              record {
                arena =
                    seg_free-Arena hz bits (give_back hz bits i popped size low high t seg) new []
                      []
                      (give_back-Arena hz bits i popped size low high t fl seg (new ∷ []) held
                        (ap (λ g. in_freelist (size_to_index hz bits) g i) same_seg ∙ home));
                same = (Draws-Silent hz bits s t new d).same;
                segments = ap (λ k. k.segment) d.same;
                list = ap (λ k. k.seg_list) d.same;
              },
            ))

        drawn_front :
            (u : VMem) (front : ℕ)
            → start == (s.segment seg).base ≡ false
            → seg_alloc t ≡ (u, some front)
            → Draws t u front
            → After (split hz bits i popped size low high s seg start)
        drawn_front u front at f d' =
            let held' = Draws-Held t u fl seg front (new ∷ []) d' held in
            let seg' = ap (λ k. k.segment seg) d'.same ∙ same_seg in
            let c =
              cut_front-Cuts hz bits i popped size low high u fl seg front start (new ∷ []) held'
                (ground (arith, from, ap (λ g. g.base) seg'))
                (ground (arith, upto, ap (λ g. g.base) seg', ap (λ g. g.size) seg')) in
            subst After (sym (split-front s seg start t new e u front at f)) (
              inr (
                Given-after hz bits size low high s _ _
                  (Silent-trans s u _
                    (Silent-trans s t u (Draws-Silent hz bits s t new d)
                      (Draws-Silent hz bits t u front d'))
                    (record { same = (c.same_base, c.same_size, c.same_quantum); sums = c.sums }))
                  (place-Given _ c.fl seg new start c.held some_room c.at
                    (ground (arith, c.rest, upto, ap (λ g. g.base) seg', ap (λ g. g.size) seg'))
                    lower upper
                    (omega (
                      arith,
                      inside,
                      c.same_base,
                      ap (λ k. k.base) d'.same,
                      ap (λ k. k.base) d.same,
                    )))))

      split-Fitted : After (split hz bits i popped size low high s seg start)
      split-Fitted = elim (seg_alloc-cases s) [
        | inl e ↦
            subst After (sym (split-none s seg start e))
              (inl (refl, give_back-Leaves s fl seg h home))
        | inr (t, new, e, d) ↦ elim (Bool-cases (start == (s.segment seg).base)) [
          | inl at ↦ drawn_at t new e d at
          | inr at ↦ elim (seg_alloc-cases t) [
            | inl f ↦ short t new e d at f
            | inr (u, front, f, d') ↦ drawn_front t new e d u front at f d'
          ]
        ]
      ]

    -- `seg_fit` on the segment it is called for.
    module _ (s : VMem) (fl : ℕ → List ℕ) (seg : ℕ)
        (h : Held hz bits i popped size low high s fl seg [])
        (home : in_freelist (size_to_index hz bits) (s.segment seg) i ≡ true)
        (some_room : 1 ≤ size) where
      abbrev pub g : Segment
      g = s.segment seg

      abbrev pub start : ℕ
      start = greater g.base low

      abbrev pub end : ℕ
      end = lesser (add64 g.base g.size) high

      abbrev pub misses : Bool
      misses = ltb end start || ltb (sub64 end start) size

      -- `seg_fit` by its two tests.
      abbrev pub outcome : Bool → Bool → VMem × ℕ
      outcome true exact = (give_back hz bits i popped size low high s seg, 0)
      outcome false true =
          (hashtab_insert hz bits (take_off hz bits i popped size low high s seg) seg, g.base)
      outcome false false = split hz bits i popped size low high s seg start

      pub seg_fit-outcome :
          seg_fit hz bits i popped size low high s seg ≡ outcome misses (g.size == size)
      unfolding seg_fit
      seg_fit-outcome = ground arith

      bounds : (s.base ≤ g.base) × (g.base + extent g ≤ s.base + s.size) × (1 ≤ g.size)
      bounds = Tiles-room s.segment s.base s.seg_list (s.base + s.size) seg h.tiles h.on

      pub room : g.base + g.size < 2 ^ 64
      room = ground (arith, bounds, h.small, free-span g.type h.kind)

      -- What the first test leaves.
      fits :
          misses ≡ false
          → (g.base ≤ start)
            × (low ≤ start)
            × (start + size ≤ g.base + g.size)
            × (start + size ≤ high)
      fits e =
          let (from, lower) = le_greater bits g.base low in
          let (upto, upper) = lesser_le bits (add64 g.base g.size) high in
          let (inside, enough) = window start end size (omega (arith, upto, room)) e in
          (from, lower, omega (arith, upto, room, enough), omega (arith, upper, enough))

      outcome-Fitted :
          (miss exact : Bool)
          → misses ≡ miss
          → (g.size == size) ≡ exact
          → Fitted hz bits size low high s (outcome miss exact)
      outcome-Fitted true exact e f = inl (refl, give_back-Leaves s fl seg h home)
      outcome-Fitted false true e f =
          let (from, lower, upto, upper) = fits e in
          let whole : g.size ≡ size = ground arith in
          let gives =
            hashtab_insert-Gives hz bits (take_off hz bits i popped size low high s seg) seg size
              (take_off-Arena hz bits i popped size low high s fl seg [] h) h.on h.kind whole in
          inr (
            record { arena = gives.arena; same = gives.same; sums = gives.sums },
            omega (arith, lower, upto, whole),
            omega (arith, from, upper),
            bounds.0,
          )
      outcome-Fitted false false e f =
          let (from, lower, upto, upper) = fits e in
          split-Fitted s fl seg start h home some_room from upto lower upper
            (omega (arith, from, bounds.0))

      pub seg_fit-Fitted :
          Fitted hz bits size low high s (seg_fit hz bits i popped size low high s seg)
      seg_fit-Fitted =
          subst (Fitted hz bits size low high s) (sym seg_fit-outcome)
            (outcome-Fitted misses (g.size == size) refl refl)
