-- ===== src/VMem/Use.antt =====
-- What is in use: the used segments of an arena, by their addresses and sizes.
use crescent.Common.{ℕ, ◌+◌, ◌≤◌, ◌≡◌, refl, arith, true, ◌&&◌, [], ◌==◌, bit, if◌then◌else◌}
use crescent.HzFront.{HzFront, HzBits, count}
use crescent.VMem.Segments.{VMem, Segment, SegmentType, free, used, span, is_used}
use crescent.VMem.Totals.{total, total-some}
use crescent.VMem.Arena.{Arena, Same, Gives, Blind}

pub kind-used : (t : SegmentType) → is_used t ≡ true → t ≡ used
kind-used free e = cc
kind-used used e = refl
kind-used span e = cc

-- `p` is a used segment of `n` bytes at `addr`.
pub record Used (s : VMem) (addr n p : ℕ) : Type 0 where
  pub on : 1 ≤ count p s.seg_list
  pub type : (s.segment p).type ≡ used
  pub at : (s.segment p).base ≡ addr
  pub room : (s.segment p).size ≡ n

-- A used segment is what its fields say.
pub Used-segment :
    (s : VMem) (addr n p : ℕ)
    → Used s addr n p
    → s.segment p ≡ record { base = addr; size = n; type = used }
Used-segment s addr n p u i = record { base = u.at i; size = u.room i; type = u.type i }

-- Counts the used segments at an address.
abbrev pub at_address : ℕ → Segment → ℕ
at_address addr g = bit (is_used g.type && g.base == addr)

abbrev pub used_at : VMem → ℕ → ℕ
used_at s addr = total (at_address addr) s.segment s.seg_list

pub at_address-both :
    (g : Segment) (addr : ℕ) → 1 ≤ at_address addr g → (g.type ≡ used) × (g.base ≡ addr)
at_address-both g addr on = (kind-used g.type (ground arith), ground arith)

-- Counts the segments of one size that are used at one address.
abbrev pub of_range : ℕ → ℕ → Segment → ℕ
of_range addr n g = if g.size == n then at_address addr g else 0

abbrev pub in_use : VMem → ℕ → ℕ → ℕ
in_use s addr n = total (of_range addr n) s.segment s.seg_list

pub of_range-Blind : (addr n : ℕ) → Blind (of_range addr n)
of_range-Blind addr n g kind = ground (arith, kind)

of_range-all :
    (g : Segment) (addr n : ℕ)
    → 1 ≤ of_range addr n g
    → (g.type ≡ used) × (g.base ≡ addr) × (g.size ≡ n)
of_range-all g addr n on =
    let (kind, at) = at_address-both g addr (ground (arith, on)) in (kind, at, ground (arith, on))

module _ (hz : HzFront) (bits : HzBits) where
  -- One more range is in use, or one less, and no other changes.
  pub record Takes (s t : VMem) (addr n : ℕ) : Type 0 where
    pub arena : Arena hz bits t [] []
    pub same : Same s t
    pub more : (a m : ℕ) → in_use t a m ≡ bit (a == addr && m == n) + in_use s a m

  pub record Returns (s t : VMem) (addr n : ℕ) : Type 0 where
    pub arena : Arena hz bits t [] []
    pub same : Same s t
    pub less : (a m : ℕ) → in_use t a m + bit (a == addr && m == n) ≡ in_use s a m

  pub Gives-Takes : (s t : VMem) (addr n : ℕ) → Gives hz bits s t addr n → Takes s t addr n
  Gives-Takes s t addr n g = record {
    arena = g.arena;
    same = g.same;
    more = λ a m. ground (arith, g.sums (of_range a m) (of_range-Blind a m));
  }

  -- What is taken is used.
  pub Takes-Used : (s t : VMem) (addr n : ℕ) → Takes s t addr n → (p : ℕ) × Used t addr n p
  Takes-Used s t addr n g =
      let sum : in_use t addr n ≡ bit (addr == addr && n == n) + in_use s addr n = g.more addr n in
      let (p, on, weighs) =
        total-some (of_range addr n) t.segment t.seg_list (ground (arith, sum)) in
      let (kind, at, room) = of_range-all (t.segment p) addr n weighs in
      (p, record { on = on; type = kind; at = at; room = room })
