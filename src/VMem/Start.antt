-- ===== src/VMem/Start.antt =====
-- `init`: a new arena is in order, and nothing is in use in it.
use mathlib.Core.Option.{some-injective}
use crescent.Common.{
  ℕ, ◌+◌, ◌≤◌, ◌<◌, ◌^◌, ◌++◌, ◌≡◌, ◌≢◌, ◌⊎◌, inl, inr, refl, sym, ap, ◌∙◌, subst, arith, false, [],
  ◌∷◌, none, some, ◌==◌, bit,
}
use crescent.HzFront.{HzFront, HzBits, count}
use crescent.VMem.{VMem, Segment, free, span, put, init, seg_alloc, size_to_index}
use crescent.VMem.Tiles.{Tiles, Tiles-apart, Tiles-room, extent, put-other, put_self}
use crescent.VMem.Pool.{page_of, Pool, Draws, seg_alloc-cases}
use crescent.VMem.Arena.{Arena}
use crescent.VMem.Runs.{Steps, Steps-Follows}
use crescent.VMem.Totals.{total}
use crescent.VMem.Use.{of_range, Used, in_use}

-- A new arena is one in which nothing is set, beside the pages that it can get.
pub record Blank (s : VMem) : Type 0 where
  pub no_segments : s.seg_list ≡ []
  pub no_free : (i : ℕ) → s.freelists i ≡ []
  pub no_used : (i : ℕ) → s.hash_tab i ≡ []
  pub pool : Pool s []

module _ (hz : HzFront) (bits : HzBits) where
  module _ (s : VMem) (base size quantum : ℕ) (b : Blank s) (some_room : 1 ≤ size)
      (small : base + size < 2 ^ 64) where
    abbrev s₀ : VMem
    s₀ = record s { base = base; size = size; quantum = quantum }

    init-null : seg_alloc s₀ ≡ (s₀, none) → init hz bits s base size quantum ≡ none
    unfolding init
    init-null e = rw e refl

    init-null_second :
        (t : VMem) (whole : ℕ)
        → seg_alloc s₀ ≡ (t, some whole)
        → seg_alloc t ≡ (t, none)
        → init hz bits s base size quantum ≡ none
    unfolding init
    init-null_second t whole e f = rw (e, f) refl

    module _ (t u : VMem) (whole first : ℕ) (e : seg_alloc s₀ ≡ (t, some whole))
        (f : seg_alloc t ≡ (u, some first)) (d : Draws s₀ t whole) (d' : Draws t u first) where
      abbrev index : ℕ
      index = size_to_index hz bits size

      abbrev made : VMem
      made = record u {
        segment =
            put (put u.segment whole (record { base = base; size = size; type = span })) first
              (record { base = base; size = size; type = free });
        seg_list = hz.push (hz.push u.seg_list whole) first;
        freelists = put u.freelists index (hz.push (u.freelists index) first);
      }

      init-made : init hz bits s base size quantum ≡ some made
      unfolding init
      init-made = rw (e, f) refl

      u-Pool : Pool u (first ∷ whole ∷ [])
      u-Pool = d'.draws (whole ∷ []) (
          d.draws []
            (record { pooled = b.pool.pooled; fresh = b.pool.fresh; aligned = b.pool.aligned }))

      apart : whole == first ≡ false
      apart = ground (arith, u-Pool.pooled whole, u-Pool.fresh (page_of whole))

      bare : u.seg_list ≡ []
      bare = ap (λ k. k.seg_list) d'.same ∙ ap (λ k. k.seg_list) d.same ∙ b.no_segments

      listed : made.seg_list ≡ whole ∷ first ∷ []
      listed =
          ap (λ l. hz.push (hz.push l whole) first) bare
          ∙ hz.push_lem (hz.push [] whole) first
          ∙ ap (λ l. l ++ first ∷ []) (hz.push_lem [] whole)

      none_free : (i : ℕ) → u.freelists i ≡ []
      none_free i = ap (λ k. k.freelists i) d'.same ∙ ap (λ k. k.freelists i) d.same ∙ b.no_free i

      none_used : (i q : ℕ) → count q (u.hash_tab i) ≡ 0
      none_used i q =
          ap (λ k. count q (k.hash_tab i)) d'.same
          ∙ ap (λ k. count q (k.hash_tab i)) d.same
          ∙ ap (count q) (b.no_used i)

      pushed : (q : ℕ) → count q (hz.push (u.freelists index) first) ≡ bit (q == first)
      pushed q = omega (
        arith,
        ap (λ l. count q (hz.push l first)) (none_free index),
        ap (count q) (hz.push_lem [] first),
      )

      abbrev outer : Segment
      outer = record { base = base; size = size; type = span }

      abbrev inner : Segment
      inner = record { base = base; size = size; type = free }

      at-whole : made.segment whole ≡ outer
      at-whole =
          put-other (put u.segment whole outer) first whole inner apart
          ∙ put_self u.segment whole whole outer (ground arith)

      at-first : made.segment first ≡ inner
      at-first = put_self (put u.segment whole outer) first first inner (ground arith)

      base-made : u.base ≡ base
      base-made = ap (λ k. k.base) d'.same ∙ ap (λ k. k.base) d.same

      size-made : u.size ≡ size
      size-made = ap (λ k. k.size) d'.same ∙ ap (λ k. k.size) d.same

      made-Tiles : Tiles made.segment u.base (whole ∷ first ∷ []) (u.base + u.size)
      made-Tiles =
          subst
            (λ g.
              (g.base ≡ u.base)
              × (1 ≤ g.size)
              × Tiles made.segment (u.base + extent g) (first ∷ []) (u.base + u.size))
            (sym at-whole)
            (
              sym base-made,
              some_room,
              subst
                  (λ g.
                    (g.base ≡ u.base + 0)
                    × (1 ≤ g.size)
                    × (u.base + 0 + extent g ≡ u.base + u.size))
                  (sym at-first) (omega (arith, base-made), some_room, omega (arith, size-made)),
            )

      made-Arena : Arena hz bits made [] []
      made-Arena = record {
        tiles = subst (λ l. Tiles made.segment u.base l (u.base + u.size)) (sym listed) made-Tiles;
        small = omega (arith, small, base-made, size-made);
        files = record {
          freed = λ i q.
              ground (arith, ap (count q) listed, pushed q, ap (count q) (none_free i), apart);
          hashed = λ i q. ground (arith, ap (count q) listed, none_used i q, apart);
        };
        pool = record {
          pooled = λ q. omega (arith, u-Pool.pooled q, ap (count q) listed, ap (count q) bare);
          fresh = u-Pool.fresh;
          aligned = u-Pool.aligned;
        };
      }

      made-unused : (a m : ℕ) → in_use made a m ≡ 0
      made-unused a m =
          ap (total (of_range a m) made.segment) listed
          ∙ omega (arith, ap (of_range a m) at-whole, ap (of_range a m) at-first, idle)
        where
          idle : (of_range a m outer ≡ 0) × (of_range a m inner ≡ 0)
          idle = ground arith

    -- A new arena whose two first segments can be had is in order, and nothing is in use in it. It
    -- has some room, which ends below 2^64.
    pub init-Arena :
        (t : VMem)
        → init hz bits s base size quantum ≡ some t
        → Arena hz bits t [] [] × (t.base ≡ base) × (t.size ≡ size) × ((a m : ℕ) → in_use t a m ≡ 0)
    init-Arena t made_t = elim (seg_alloc-cases s₀) [
      | inl e ↦ absurd (clash (sym (init-null e) ∙ made_t))
      | inr (r, whole, e, d) ↦ elim (seg_alloc-cases r) [
        | inl e' ↦ absurd (clash (sym (init-null_second r whole e e') ∙ made_t))
        | inr (u, first, e', d') ↦
            subst
              (λ t.
                Arena hz bits t [] []
                × (t.base ≡ base)
                × (t.size ≡ size)
                × ((a m : ℕ) → in_use t a m ≡ 0))
              (some-injective (made r u whole first e e' d d') t
                (sym (init-made r u whole first e e' d d') ∙ made_t))
              (
                made-Arena r u whole first e e' d d',
                base-made r u whole first e e' d d',
                size-made r u whole first e e' d d',
                made-unused r u whole first e e' d d',
              )
      ]
    ]
      where
        clash : none ≡ some t → ⊥
        clash q = cc

  -- In a new arena that does not start at 0, after any calls of `xalloc` and `xfree` that fail no
  -- assertion, two segments in use do not overlap, and both lie in the arena.
  pub Steps-apart :
      (s r t : VMem) (base size quantum : ℕ)
      → Blank s
      → 1 ≤ base
      → 1 ≤ size
      → base + size < 2 ^ 64
      → init hz bits s base size quantum ≡ some r
      → Steps hz bits r t
      → (p q a n b m : ℕ) → Used t a n p
      → Used t b m q
      → p ≢ q
      → ((a + n ≤ b) ⊎ (b + m ≤ a)) × (base ≤ a) × (a + n ≤ base + size)
  Steps-apart s r t base size quantum blank positive some_room small made steps p q a n b m u w ne =
      let (v, base_r, size_r, idle) = init-Arena s base size quantum blank some_room small r made in
      let ((w', positive'), base_t, size_t) =
        Steps-Follows hz bits r t (v, omega (arith, positive, base_r)) steps in
      let room = Tiles-room t.segment t.base t.seg_list (t.base + t.size) p w'.tiles u.on in
      let apart =
        Tiles-apart t.segment t.base t.seg_list (t.base + t.size) p q w'.tiles u.on w.on
          (ground (arith, ne)) in
      ground (
        arith, apart, room, u.at, u.room, u.type, w.at, w.room, w.type, base_r, base_t, size_r,
        size_t,
      )
