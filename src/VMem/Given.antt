-- ===== src/VMem/Given.antt =====
-- What an attempt of `xalloc` may do, and what comes before it.
use crescent.Common.{ℕ, ◌+◌, ◌≤◌, ◌≡◌, ◌⊎◌, inl, inr, ap, ◌∙◌, arith}
use crescent.HzFront.{HzFront, HzBits}
use crescent.VMem.Segments.{used, Segment, VMem}
use crescent.VMem.Pool.{Draws}
use crescent.VMem.Totals.{total}
use crescent.VMem.Arena.{Same, Gives, Leaves, Blind}

-- A step that changes neither the arena nor what is in use.
pub record Silent (s t : VMem) : Type 0 where
  pub same : Same s t
  pub sums :
      (w : Segment → ℕ) → Blind w → total w t.segment t.seg_list ≡ total w s.segment s.seg_list

pub Silent-trans : (s t u : VMem) → Silent s t → Silent t u → Silent s u
Silent-trans s t u a b = record {
  same = (b.same.0 ∙ a.same.0, b.same.1 ∙ a.same.1, b.same.2 ∙ a.same.2);
  sums = λ w blind. b.sums w blind ∙ a.sums w blind;
}

module _ (hz : HzFront) (bits : HzBits) where
  open bits use {lesser, greater, lesser_left, lesser_right, greater_left, greater_right}

  module _ (s t u : VMem) (first : Silent s t) where
    pub Gives-after : (addr n : ℕ) → Gives hz bits t u addr n → Gives hz bits s u addr n
    Gives-after addr n g = record {
      arena = g.arena;
      same = (g.same.0 ∙ first.same.0, g.same.1 ∙ first.same.1, g.same.2 ∙ first.same.2);
      sums = λ w blind.
          g.sums w blind
          ∙ ap (λ k. w (record { base = addr; size = n; type = used }) + k) (first.sums w blind);
    }

  -- Room of `size` bytes within the bounds, and within the arena.
  abbrev pub Given : ℕ → ℕ → ℕ → VMem → VMem × ℕ → Type 0
  Given size low high s (t, addr) =
      Gives hz bits s t addr size × (low ≤ addr) × (addr + size ≤ high) × (s.base ≤ addr)

  -- What an attempt may do: it fails, or it gives room.
  abbrev pub Fitted : ℕ → ℕ → ℕ → VMem → VMem × ℕ → Type 0
  Fitted size low high s (t, addr) =
      ((addr ≡ 0) × Leaves hz bits s t) ⊎ Given size low high s (t, addr)

  pub Given-after :
      (size low high : ℕ) (s t : VMem) (r : VMem × ℕ)
      → Silent s t
      → Given size low high t r
      → Given size low high s r
  Given-after size low high s t (u, addr) first (g, lower, upper, inside) =
      (Gives-after s t u first addr size g, lower, upper, omega (arith, inside, first.same.0))

  pub Leaves-after : (s t u : VMem) → Leaves hz bits s t → Leaves hz bits t u → Leaves hz bits s u
  Leaves-after s t u a b = record {
    arena = b.arena;
    same = (b.same.0 ∙ a.same.0, b.same.1 ∙ a.same.1, b.same.2 ∙ a.same.2);
    segments = b.segments ∙ a.segments;
    list = b.list ∙ a.list;
  }

  pub Leaves-Silent : (s t : VMem) → Leaves hz bits s t → Silent s t
  Leaves-Silent s t l = record {
    same = l.same;
    sums = λ w blind. ap (λ f. total w f t.seg_list) l.segments ∙ ap (total w s.segment) l.list;
  }

  pub Fitted-after :
      (size low high : ℕ) (s t : VMem) (r : VMem × ℕ)
      → Leaves hz bits s t
      → Fitted size low high t r
      → Fitted size low high s r
  Fitted-after size low high s t (u, addr) first (inl (none_found, l)) =
      inl (none_found, Leaves-after s t u first l)
  Fitted-after size low high s t (u, addr) first (inr given) =
      inr (Given-after size low high s t (u, addr) (Leaves-Silent s t first) given)

  pub Draws-Silent : (s t : VMem) (new : ℕ) → Draws s t new → Silent s t
  Draws-Silent s t new d = record {
    same = (ap (λ k. k.base) d.same, ap (λ k. k.size) d.same, ap (λ k. k.quantum) d.same);
    sums = λ w blind. ap (λ k. total w k.segment k.seg_list) d.same;
  }
