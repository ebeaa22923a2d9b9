-- ===== src/Page/Handover.antt =====
-- The early allocator, and what `early_pmalloc_finalize` hands over to the page allocator.
use crescent.Common.{
  ℕ, subst, sym, ap, ◌+◌, ◌*◌, ◌/◌, ◌%◌, ◌^◌, ◌≤◌, ◌<◌, ◌≡◌, refl, ◌⊎◌, inl, inr, true, false, List,
  [], ◌∷◌, arith, ◌==◌, bit, sum_by, Bool-cases,
}
use crescent.HzList.{HzList}
use crescent.Page.Early.{early_pmalloc, Region, take_page}
use crescent.Page.{Pages, page_size, add_mem, hand_over, finalize}
use crescent.Page.Cover.{in_run, cover, IsValid, cover-with_run, with_run-IsValid}

abbrev pub region_run : Region → ℕ → ℕ
region_run r f = in_run (r.base / page_size) (r.size / page_size) f

-- The number of regions that page `f` is in.
abbrev pub region_cover : List Region → ℕ → ℕ
region_cover rs f = sum_by (λ r. region_run r f) rs

-- A region of whole pages that does not wrap.
abbrev pub Aligned : Region → Type 0
Aligned r = (r.base % page_size ≡ 0) × (r.size % page_size ≡ 0) × (r.base + r.size < 2 ^ 64)

abbrev pub AllAligned : List Region → Type 0
AllAligned [] = Unit {0}
AllAligned (r ∷ rs) = Aligned r × AllAligned rs

-- What the outcome of `early_pmalloc` may be: a page that was in a region, and is no longer, or a
-- failure if the regions are empty.
abbrev pub TakesEarly : List Region → List Region × ℕ → Type 0
TakesEarly rs (rs', phys) =
    ((page : ℕ) × (phys ≡ page * page_size)
      × ((f : ℕ) → region_cover rs f ≡ bit (f == page) + region_cover rs' f)
      × AllAligned rs')
    ⊎ ((phys ≡ 0) × (rs' ≡ rs) × ((f : ℕ) → region_cover rs f ≡ 0))

region_run-empty : (r : Region) (f : ℕ) → r.size == 0 ≡ true → region_run r f ≡ 0
region_run-empty r f e = ground arith

whole_page : (n : ℕ) → n % page_size ≡ 0 → n ≡ n / page_size * page_size
whole_page n h = omega arith

take_page-Aligned :
    (r : Region)
    → r.base % page_size ≡ 0
    → r.size % page_size ≡ 0
    → r.base + r.size < 2 ^ 64
    → r.size == 0 ≡ false
    → Aligned (take_page r)
take_page-Aligned r hb hs fits e = (ground arith, ground arith, ground arith)

take_page-run :
    (r : Region) (f : ℕ)
    → r.base % page_size ≡ 0
    → r.size % page_size ≡ 0
    → r.base + r.size < 2 ^ 64
    → r.size == 0 ≡ false
    → region_run r f ≡ bit (f == r.base / page_size) + region_run (take_page r) f
take_page-run r f hb hs fits e = ground arith

-- `early_pmalloc` takes one page out of the regions, or fails if they have none.
pub early_pmalloc-TakesEarly : (rs : List Region) → AllAligned rs → TakesEarly rs (early_pmalloc rs)
unfolding early_pmalloc
early_pmalloc-TakesEarly [] a = inr (refl, refl, λ f. refl)
early_pmalloc-TakesEarly (r ∷ rs) (h, a) = elim (Bool-cases (r.size == 0)) [
  | inl e ↦ rw e (elim (early_pmalloc-TakesEarly rs a) [
    | inl (page, at, takes, a') ↦ inl (page, at, λ f. omega (arith, takes f), (h, a'))
    | inr (at, same, empty) ↦
        inr (at, ap (λ l. r ∷ l) same, λ f. omega (arith, empty f, region_run-empty r f e))
  ])
  | inr e ↦ rw e (
      inl (
        r.base / page_size,
        whole_page r.base h.0,
        λ f. omega (arith, take_page-run r f h.0 h.1 h.2 e),
        (take_page-Aligned r h.0 h.1 h.2 e, a),
      ))
]

module _ (hz : HzList) where
  add_mem_lem :
      (s : Pages) (r : Region)
      → Aligned r
      → r.size == 0 ≡ false
      → IsValid s
      → ((f : ℕ) → region_run r f + cover s f ≤ 1)
      → ((f : ℕ) → cover (add_mem hz s r.base r.size) f ≡ region_run r f + cover s f)
        × IsValid (add_mem hz s r.base r.size)
  unfolding add_mem
  add_mem_lem s r h e v apart = (
    (λ f.
        cover-with_run hz s (r.base / page_size) (r.size / page_size) f v
          (ground (arith, apart (r.base / page_size), h))),
    with_run-IsValid hz s (r.base / page_size) (r.size / page_size) v (ground (arith, h)) apart,
  )

  hand_over_empty :
      (r : Region) (rs : List Region) (s : Pages)
      → r.size == 0 ≡ true
      → hand_over hz (r ∷ rs) s ≡ hand_over hz rs s
  unfolding hand_over
  hand_over_empty r rs s e = rw e refl

  hand_over_add :
      (r : Region) (rs : List Region) (s : Pages)
      → r.size == 0 ≡ false
      → hand_over hz (r ∷ rs) s ≡ hand_over hz rs (add_mem hz s r.base r.size)
  unfolding hand_over
  hand_over_add r rs s e = rw e refl

  -- `s'` has the regions as free runs, in addition to those of `s`.
  abbrev HandsOver : List Region → Pages → Pages → Type 0
  HandsOver rs s s' = ((f : ℕ) → cover s' f ≡ region_cover rs f + cover s f) × IsValid s'

  hand_over_lem :
      (rs : List Region) (s : Pages)
      → AllAligned rs
      → IsValid s
      → ((f : ℕ) → region_cover rs f + cover s f ≤ 1)
      → HandsOver rs s (hand_over hz rs s)
  unfolding hand_over
  hand_over_lem [] s a v apart = (λ f. omega arith, v)
  hand_over_lem (r ∷ rs) s (h, a) v apart = elim (Bool-cases (r.size == 0)) [
    | inl e ↦
        let (sums, v') = hand_over_lem rs s a v (λ f. omega (arith, apart f)) in
        subst (HandsOver (r ∷ rs) s) (sym (hand_over_empty r rs s e))
          ((λ f. omega (arith, sums f, region_run-empty r f e)), v')
    | inr e ↦
        let (adds, v₁) = add_mem_lem s r h e v (λ f. omega (arith, apart f)) in
        let (sums, v') =
          hand_over_lem rs (add_mem hz s r.base r.size) a v₁
            (λ f. omega (arith, adds f, apart f)) in
        subst (HandsOver (r ∷ rs) s) (sym (hand_over_add r rs s e))
          ((λ f. omega (arith, sums f, adds f)), v')
  ]

  -- `early_pmalloc_finalize` makes exactly the pages free that the regions still have, and ends
  -- the early phase, if no page is in two regions and the allocator has no page yet.
  pub finalize_lem :
      (s : Pages)
      → s.list ≡ []
      → AllAligned s.regions
      → ((f : ℕ) → region_cover s.regions f ≤ 1)
      → ((f : ℕ) → cover (finalize hz s) f ≡ region_cover s.regions f)
        × IsValid (finalize hz s)
        × ((finalize hz s).early ≡ false)
  unfolding finalize
  finalize_lem s empty a once =
      let (sums, v') =
        hand_over_lem s.regions s a v
          (λ f. omega (arith, once f, none_of (λ b. in_run b (s.count b) f))) in
      (
        (λ f. omega (arith, sums f, none_of (λ b. in_run b (s.count b) f))),
        record { once = v'.once; full = v'.full },
        refl,
      )
    where
      none_of : (w : ℕ → ℕ) → sum_by w s.list ≡ 0
      none_of w = ap (sum_by w) empty

      v : IsValid s
      v = record {
        once = λ f. omega (arith, none_of (λ b. in_run b (s.count b) f));
        full = none_of (λ b. bit (s.count b == 0));
      }
