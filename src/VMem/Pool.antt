-- ===== src/VMem/Pool.antt =====
-- The pool that segments come from: none is given out twice.
use crescent.Common.{
  ℕ, zero, suc, ◌+◌, ◌*◌, ◌/◌, ◌%◌, ◌≤◌, ◌<◌, ◌≡◌, ◌⊎◌, inl, inr, refl, arith, List, [], ◌∷◌, none,
  some, ◌==◌, bit, ap, ◌∙◌, List-cases, ◌-◌,
}
use crescent.HzFront.{count}
use crescent.VMem.Hooks.{Once}
use crescent.VMem.Segments.{VMem, seg_alloc, spare, draw, segment_size, spare_segments}

-- The page that an address lies on.
abbrev pub page_of : ℕ → ℕ
page_of p = p / 0x1000 * 0x1000

-- Each segment lies on a page of the arena, and is in it, free or in hand, but only once; the pages
-- still to come are whole and none of those.
pub record Pool (s : VMem) (hand : List ℕ) : Type 0 where
  pub pooled :
      (p : ℕ)
      → count p s.seg_list + count p s.free_segs + count p hand ≤ count (page_of p) s.seg_page_list
  pub fresh : (page : ℕ) → count page s.seg_page_list + count page s.pages ≤ 1
  pub aligned : (page : ℕ) → 1 ≤ count page s.pages → page % 0x1000 ≡ 0

count-spare :
    (page n p : ℕ) → 1 ≤ count p (spare page n) → (page < p) × (p ≤ page + segment_size * n)
unfolding spare
count-spare page zero p on = absurd (omega arith)
count-spare page (suc n) p on = ground (arith, count-spare page n p)

count-spare_le : (page n p : ℕ) → count p (spare page n) ≤ 1
unfolding spare
count-spare_le page zero p = omega arith
count-spare_le page (suc n) p = ground (arith, count-spare page n p, count-spare_le page n p)

-- What `seg_alloc` leaves, once `seg` is in hand.
pub record Draws (s t : VMem) (seg : ℕ) : Type 0 where
  pub same :
      t ≡ record s { free_segs = t.free_segs; seg_page_list = t.seg_page_list; pages = t.pages }
  pub draws : (hand : List ℕ) → Pool s hand → Pool t (seg ∷ hand)

page_of-spare :
    (page p : ℕ)
    → page % 0x1000 ≡ 0
    → page < p
    → p ≤ page + segment_size * spare_segments
    → page_of p ≡ page
page_of-spare page p whole lower upper = omega arith

-- A new page gives each of its segments once.
count-new_page :
    (page p : ℕ)
    → page % 0x1000 ≡ 0
    → bit (p == page + segment_size * spare_segments) + count p (spare page (spare_segments - 1))
      ≤ bit (page_of p == page)
count-new_page page p whole = ground (
  arith,
  count-spare page (spare_segments - 1) p,
  count-spare_le page (spare_segments - 1) p,
  page_of-spare page p whole,
)

-- The three outcomes of `seg_alloc`.
abbrev of_pool : VMem → List ℕ → VMem
of_pool s rest = record s { free_segs = rest }

abbrev of_page : VMem → ℕ → List ℕ → VMem
of_page s page pages = record s {
  pages = pages;
  seg_page_list = page ∷ s.seg_page_list;
  free_segs = spare page (spare_segments - 1);
}

module _ (s : VMem) where
  seg_alloc-pool :
      (seg : ℕ) (rest : List ℕ)
      → s.free_segs ≡ seg ∷ rest
      → seg_alloc s ≡ (of_pool s rest, some seg)
  unfolding seg_alloc
  seg_alloc-pool seg rest e = ap (λ l. draw s l s.pages) e

  seg_alloc-page :
      (page : ℕ) (pages : List ℕ)
      → s.free_segs ≡ []
      → s.pages ≡ page ∷ pages
      → seg_alloc s ≡ (of_page s page pages, some (page + segment_size * spare_segments))
  unfolding seg_alloc
  seg_alloc-page page pages e f = ap (λ l. draw s l s.pages) e ∙ ap (draw s []) f

  seg_alloc-none : s.free_segs ≡ [] → s.pages ≡ [] → seg_alloc s ≡ (s, none)
  unfolding seg_alloc
  seg_alloc-none e f = ap (λ l. draw s l s.pages) e ∙ ap (draw s []) f

  of_pool-Draws :
      (seg : ℕ) (rest : List ℕ) → s.free_segs ≡ seg ∷ rest → Draws s (of_pool s rest) seg
  of_pool-Draws seg rest e = record {
    same = refl;
    draws = λ hand v. record {
      pooled = λ p. omega (arith, v.pooled p, ap (count p) e);
      fresh = v.fresh;
      aligned = v.aligned;
    };
  }

  of_page-Draws :
      (page : ℕ) (pages : List ℕ)
      → s.free_segs ≡ []
      → s.pages ≡ page ∷ pages
      → Draws s (of_page s page pages) (page + segment_size * spare_segments)
  of_page-Draws page pages e f = record {
    same = refl;
    draws = λ hand v. record {
      pooled = λ p. ground (
        arith,
        count-new_page page p (v.aligned page (ground (arith, ap (count page) f))),
        v.pooled p,
        ap (count p) e,
        v.fresh (page_of p),
        ap (count (page_of p)) f,
      );
      fresh = λ q. ground (arith, v.fresh q, ap (count q) f);
      aligned = λ q on. v.aligned q (ground (arith, ap (count q) f));
    };
  }

  pub seg_alloc-cases :
      (seg_alloc s ≡ (s, none))
      ⊎ ((t : VMem) × (seg : ℕ) × (seg_alloc s ≡ (t, some seg)) × Draws s t seg)
  seg_alloc-cases = elim (List-cases s.free_segs) [
    | inr (seg, rest, e) ↦
        inr (of_pool s rest, seg, seg_alloc-pool seg rest e, of_pool-Draws seg rest e)
    | inl e ↦ elim (List-cases s.pages) [
      | inl f ↦ inl (seg_alloc-none e f)
      | inr (page, pages, f) ↦ inr (
        of_page s page pages,
        page + segment_size * spare_segments,
        seg_alloc-page page pages e f,
        of_page-Draws page pages e f,
      )
    ]
  ]

pub Pool-Once : (s : VMem) (hand : List ℕ) → Pool s hand → Once s.seg_list
Pool-Once s hand v p = omega (arith, v.pooled p, v.fresh (page_of p))
