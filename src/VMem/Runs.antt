-- ===== src/VMem/Runs.antt =====
-- Arenas over time: what `init`, `xalloc` and `xfree` do one after the other.
use mathlib.Core.Option.{some-injective}
use crescent.Common.{
  ℕ, ◌+◌, ◌≤◌, ◌≡◌, ◌⊎◌, inl, inr, refl, sym, ap, ◌∙◌, subst, arith, [], none, some,
}
use crescent.HzFront.{HzFront, HzBits}
use crescent.VMem.{VMem, xalloc, xfree, align_up, upper_bound}
use crescent.VMem.Tiles.{Tiles-room}
use crescent.VMem.Arena.{Arena, Leaves}
use crescent.VMem.Given.{Fitted}
use crescent.VMem.Search.{xalloc-Fitted}
use crescent.VMem.Use.{Used, Takes, in_use, Gives-Takes, Takes-Used}
use crescent.VMem.Free.{xfree-Freeing, xfree-Used}

module _ (hz : HzFront) (bits : HzBits) where
  -- What `xalloc` may do: it returns 0 and leaves every segment as it was, or it takes `size` bytes.
  abbrev pub Outcome : ℕ → ℕ → ℕ → VMem → VMem × ℕ → Type 0
  Outcome size low high s (t, addr) =
      ((addr ≡ 0) × Leaves hz bits s t)
      ⊎ (Takes hz bits s t addr size
          × (low ≤ addr)
          × (addr + size ≤ high)
          × (s.base ≤ addr)
          × (addr + size ≤ s.base + s.size))

  Fitted-Outcome :
      (size low high : ℕ) (s : VMem) (r : VMem × ℕ)
      → Fitted hz bits size low high s r
      → Outcome size low high s r
  Fitted-Outcome size low high s (t, addr) (inl f) = inl f
  Fitted-Outcome size low high s (t, addr) (inr (g, lower, upper, inside)) =
      let takes = Gives-Takes hz bits s t addr size g in
      let (p, u) = Takes-Used hz bits s t addr size takes in
      let room =
        Tiles-room t.segment t.base t.seg_list (t.base + t.size) p takes.arena.tiles u.on in
      inr (takes, lower, upper, inside, ground (arith, room.1, u.type, u.at, u.room, takes.same))

  module _ (s : VMem) (wanted low limit : ℕ) (v : Arena hz bits s [] [])
      (positive : 1 ≤ s.base) where
    abbrev size : ℕ
    size = align_up wanted s.quantum

    -- In an arena that is in order and does not start at 0, `xalloc` returns 0 and leaves every
    -- segment as it was, or the address of a range of the rounded size within the bounds and the
    -- arena: that range is then in use, and no other that was not. The arena stays in order.
    pub xalloc-Outcome :
        Outcome size low (upper_bound low limit size) s (xalloc hz bits s wanted low limit)
    xalloc-Outcome =
        Fitted-Outcome size low (upper_bound low limit size) s (xalloc hz bits s wanted low limit)
          (xalloc-Fitted hz bits s v positive wanted low limit)

    -- What `xalloc` gives can be freed with the size that was asked for, and what is in use is then
    -- what was before.
    pub xfree-xalloc :
        let (t, addr) = xalloc hz bits s wanted low limit in
        1 ≤ addr
        → (u : VMem) × (xfree hz bits t addr wanted ≡ some u)
          × Arena hz bits u [] []
          × ((a m : ℕ) → in_use u a m ≡ in_use s a m)
    xfree-xalloc = after (xalloc hz bits s wanted low limit) xalloc-Outcome
      where
        after :
            (r : VMem × ℕ)
            → Outcome size low (upper_bound low limit size) s r
            → 1 ≤ r.1
            → (u : VMem) × (xfree hz bits r.0 r.1 wanted ≡ some u)
              × Arena hz bits u [] []
              × ((a m : ℕ) → in_use u a m ≡ in_use s a m)
        after (t, addr) (inl (e, l)) some_addr = absurd (omega (arith, e, some_addr))
        after (t, addr) (inr (g, lower, upper, inside, within)) some_addr =
            let (p, is) = Takes-Used hz bits s t addr size g in
            let rounds : size ≡ align_up wanted t.quantum = ap (align_up wanted) (sym g.same.2) in
            let (u, e, f) =
              xfree-Used hz bits t g.arena addr wanted p (subst (λ n. Used t addr n p) rounds is) in
            (u, e, f.arena, λ a m. ground (arith, f.less a m, g.more a m, rounds))

  -- The calls on an arena.
  pub data Step : VMem → VMem → Type 0 where
    allocates : {s : VMem} (wanted low limit : ℕ) → Step s (xalloc hz bits s wanted low limit).0
    frees : {s t : VMem} (ptr size : ℕ) → xfree hz bits s ptr size ≡ some t → Step s t

  pub data Steps (s : VMem) : VMem → Type 0 where
    start : Steps s s
    step : {t u : VMem} → Steps s t → Step t u → Steps s u

  abbrev pub Ordered : VMem → Type 0
  Ordered s = Arena hz bits s [] [] × (1 ≤ s.base)

  -- The arena stays in order, and where it is.
  abbrev pub Follows : VMem → VMem → Type 0
  Follows s t = Ordered t × (t.base ≡ s.base) × (t.size ≡ s.size)

  Step-Follows : {s t : VMem} → Step s t → Ordered s → Follows s t
  Step-Follows {s} (allocates wanted low limit) (v, positive) =
      after (xalloc hz bits s wanted low limit) (xalloc-Outcome s wanted low limit v positive)
    where
      after :
          (r : VMem × ℕ)
          → Outcome
              (align_up wanted s.quantum)
              low
              (upper_bound low limit (align_up wanted s.quantum))
              s
              r
          → Follows s r.0
      after (t, addr) (inl (e, l)) =
          ((l.arena, omega (arith, positive, l.same.0)), l.same.0, l.same.1)
      after (t, addr) (inr (g, lower, upper, inside, within)) =
          ((g.arena, omega (arith, positive, g.same.0)), g.same.0, g.same.1)
  Step-Follows {s} {t} (frees ptr size e) (v, positive) =
      elim (xfree-Freeing hz bits s v ptr size) [
        | inl (f, off) ↦
            subst (Follows s) (some-injective s t (sym f ∙ e)) ((v, positive), refl, refl)
        | inr (p, n, u, inl (same, (t', f, r))) ↦
            subst (Follows s) (some-injective t' t (sym f ∙ e))
              ((r.arena, omega (arith, positive, r.same.0)), r.same.0, r.same.1)
        | inr (p, n, u, inr (ne, f)) ↦ absurd (clash (sym f ∙ e))
      ]
    where
      clash : none ≡ some t → ⊥
      clash q = cc

  pub Steps-Follows : (s t : VMem) → Ordered s → Steps s t → Follows s t
  Steps-Follows s t v start = (v, refl, refl)
  Steps-Follows s t v (step {t = r} steps st) =
      let (w, base, size) = Steps-Follows s r v steps in
      let (w', base', size') = Step-Follows st w in (w', base' ∙ base, size' ∙ size)
