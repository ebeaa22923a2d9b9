-- ===== src/Page/Single.antt =====
-- `pmalloc` and the two functions that free: which pages they take out of the free runs and put in.
use crescent.Common.{
  ℕ, subst, sym, ap, ◌∙◌, ◌+◌, ◌-◌, ◌*◌, ◌/◌, ◌≤◌, ◌<◌, ◌≡◌, refl, ◌⊎◌, inl, inr, true, false, none,
  some, List, arith, ltb, ◌==◌, bit, sum_by, Bool-cases, Option-cases,
}
use crescent.HzList.{HzList}
use crescent.Page.{Pages, keep_rest, page_size, pmalloc, pmalloc_late, pfree, pfree_contiguous}
use crescent.Page.Cover.{in_run, cover, IsValid, cover-with_run, with_run-IsValid}

-- `page` is an element of `l`, and `rest` has the others.
abbrev pub Splits : List ℕ → ℕ → List ℕ → Type 0
Splits l page rest = (w : ℕ → ℕ) → sum_by w l ≡ w page + sum_by w rest

-- `page` was free, and it alone is free no more; the runs are well formed.
abbrev pub Loses : Pages → ℕ → Pages → Type 0
Loses s page s' = ((f : ℕ) → cover s f ≡ bit (f == page) + cover s' f) × IsValid s'

-- An allocation that hands out a page.
abbrev pub Takes : Pages → Pages × ℕ → Type 0
Takes s (s', phys) = (page : ℕ) × (phys ≡ page * page_size) × Loses s page s'

-- An allocation that fails.
abbrev pub Fails : Pages → Pages × ℕ → Type 0
Fails s (s', phys) = (phys ≡ 0) × (s' ≡ s)

-- What the outcome of an allocation from `s` may be.
abbrev pub Allocates : Pages → Pages × ℕ → Type 0
Allocates s r = Takes s r ⊎ (Fails s r × ((f : ℕ) → cover s f ≡ 0))

split-IsValid :
    (s : Pages) (page : ℕ) (rest : List ℕ)
    → IsValid s
    → Splits s.list page rest
    → IsValid (record s { list = rest })
split-IsValid s page rest v split = record {
  once = λ f. omega (arith, v.once f, split (λ b. in_run b (s.count b) f));
  full = omega (arith, v.full, split (λ b. bit (s.count b == 0)));
}

module _ (hz : HzList) where
  open hz use {pop, pop_none, pop_some}

  pub keep_rest-Loses :
      (s : Pages) (page : ℕ) (rest : List ℕ)
      → IsValid s
      → Splits s.list page rest
      → Loses s page (keep_rest hz (record s { list = rest }) page)
  unfolding keep_rest
  keep_rest-Loses s page rest v split = elim (Bool-cases (ltb 1 (s.count page))) [
    | inl e ↦ rw e (
      (λ f. ground (
        arith,
        split (λ b. in_run b (s.count b) f),
        cover-with_run hz s₁ (page + 1) (s.count page - 1) f v₁ (free₁ e),
      )),
      with_run-IsValid hz s₁ (page + 1) (s.count page - 1) v₁ (ground arith)
          (λ f. ground (arith, v.once f, split (λ b. in_run b (s.count b) f))),
    )
    | inr e ↦ rw e (
      (λ f.
          ground (
            arith,
            split (λ b. in_run b (s.count b) f),
            split (λ b. bit (s.count b == 0)),
            v.full,
          )),
      v₁,
    )
  ]
    where
      s₁ : Pages
      s₁ = record s { list = rest }

      v₁ : IsValid s₁
      v₁ = split-IsValid s page rest v split

      free₁ : ltb 1 (s.count page) ≡ true → cover s₁ (page + 1) ≡ 0
      free₁ e = ground (arith, v.once (page + 1), split (λ b. in_run b (s.count b) (page + 1)))

  pmalloc-late : (s : Pages) → s.early ≡ false → pmalloc hz s ≡ pmalloc_late hz s
  unfolding pmalloc
  pmalloc-late s late = ground arith

  pmalloc_late-none : (s : Pages) → pop s.list ≡ none → pmalloc_late hz s ≡ (s, 0)
  unfolding pmalloc_late
  pmalloc_late-none s e = rw (e, pmalloc_late) refl

  pmalloc_late-some :
      (s : Pages) (page : ℕ) (rest : List ℕ)
      → pop s.list ≡ some (page, rest)
      → pmalloc_late hz s ≡ (keep_rest hz (record s { list = rest }) page, page * page_size)
  unfolding pmalloc_late
  pmalloc_late-some s page rest e = rw (e, pmalloc_late) refl

  pmalloc_late-Allocates : (s : Pages) → IsValid s → Allocates s (pmalloc_late hz s)
  pmalloc_late-Allocates s v = elim (Option-cases (pop s.list)) [
    | inl e ↦
        subst (Allocates s) (sym (pmalloc_late-none s e))
          (inr ((refl, refl), λ f. ap (sum_by (λ b. in_run b (s.count b) f)) (pop_none s.list e)))
    | inr ((page, rest), e) ↦
        subst (Allocates s) (sym (pmalloc_late-some s page rest e))
          (inl (page, refl, keep_rest-Loses s page rest v (pop_some s.list page rest e)))
  ]

  -- `pmalloc` hands out a page that was free, which is then no longer free, and changes no other;
  -- it fails only if no page is free. The runs stay well formed.
  pub pmalloc-Allocates : (s : Pages) → s.early ≡ false → IsValid s → Allocates s (pmalloc hz s)
  pmalloc-Allocates s late v =
      subst (Allocates s) (sym (pmalloc-late s late)) (pmalloc_late-Allocates s v)

  -- `pfree` of a page that is not free makes that page free, and no other.
  pub pfree_lem :
      (s : Pages) (phys : ℕ)
      → IsValid s
      → cover s (phys / page_size) ≡ 0
      → Loses (pfree hz s phys) (phys / page_size) s × IsValid (pfree hz s phys)
  unfolding pfree
  pfree_lem s phys v off = (
    ((λ f. ground (arith, cover-with_run hz s (phys / page_size) 1 f v off)), v),
    with_run-IsValid hz s (phys / page_size) 1 v (omega arith) (λ f. ground (arith, v.once f, off)),
  )

  -- `pfree_contiguous` of pages that are not free makes these pages free, and no others.
  pub pfree_contiguous_lem :
      (s : Pages) (phys count : ℕ)
      → IsValid s
      → 1 ≤ count
      → ((f : ℕ) → in_run (phys / page_size) count f + cover s f ≤ 1)
      → ((f : ℕ)
          → cover (pfree_contiguous hz s phys count) f
            ≡ in_run (phys / page_size) count f + cover s f)
        × IsValid (pfree_contiguous hz s phys count)
  unfolding pfree_contiguous
  pfree_contiguous_lem s phys count v pos apart = (
    (λ f.
        cover-with_run hz s (phys / page_size) count f v
          (ground (arith, apart (phys / page_size)))),
    with_run-IsValid hz s (phys / page_size) count v pos apart,
  )

  -- A page that was allocated and is freed again leaves the free pages as they were.
  pub pmalloc-pfree :
      (s : Pages)
      → s.early ≡ false
      → IsValid s
      → (f : ℕ) → 0 < cover s f
      → (g : ℕ) → let (s', phys) = pmalloc hz s in cover (pfree hz s' phys) g ≡ cover s g
  pmalloc-pfree s late v f some_free g = elim (pmalloc-Allocates s late v) [
    | inl (page, e, (loses, v')) ↦
        let s' = (pmalloc hz s).0 in
        let phys = (pmalloc hz s).1 in
        let q : phys / page_size ≡ page = omega arith in
        let off : cover s' page ≡ 0 = ground (arith, loses page, v.once page) in
        let back = (pfree_lem s' phys v' (rw q off)).0.0 in ground (arith, loses g, back g, q)
    | inr (fails, empty) ↦ absurd (omega (arith, empty f))
  ]

  keep_rest_early : (s : Pages) (page : ℕ) → (keep_rest hz s page).early ≡ s.early
  unfolding keep_rest
  keep_rest_early s page = elim (Bool-cases (ltb 1 (s.count page))) [
    | inl e ↦ rw e refl
    | inr e ↦ rw e refl
  ]

  -- The early phase does not come back.
  pub pmalloc_stays : (s : Pages) → s.early ≡ false → (pmalloc hz s).0.early ≡ false
  pmalloc_stays s late = elim (Option-cases (pop s.list)) [
    | inl e ↦ ap (λ r. r.0.early) (pmalloc-late s late ∙ pmalloc_late-none s e) ∙ late
    | inr ((page, rest), e) ↦
        ap (λ r. r.0.early) (pmalloc-late s late ∙ pmalloc_late-some s page rest e)
        ∙ keep_rest_early (record s { list = rest }) page
        ∙ late
  ]

  pub pfree_stays : (s : Pages) (phys : ℕ) → (pfree hz s phys).early ≡ s.early
  unfolding pfree
  pfree_stays s phys = refl
