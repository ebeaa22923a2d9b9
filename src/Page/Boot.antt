-- ===== src/Page/Boot.antt =====
-- The allocations before `early_pmalloc_finalize`, and what that function then makes free.
use crescent.Common.{
  ℕ, subst, sym, zero, suc, ◌+◌, ◌/◌, ◌≤◌, ◌≡◌, refl, inl, inr, true, List, [], ◌∷◌, arith, ◌==◌,
  if◌then◌else◌, bit, sum_by,
}
use crescent.HzList.{HzList}
use crescent.Page.Early.{early_pmalloc}
use crescent.Page.{Pages, page_size, pmalloc, finalize}
use crescent.Page.Cover.{cover, IsValid}
use crescent.Page.Handover.{region_cover, AllAligned, early_pmalloc-TakesEarly, finalize_lem}

module _ (hz : HzList) where
  -- `n` calls of `pmalloc` one after the other, and the addresses that they returned.
  unfoldable pub calls : ℕ → Pages → Pages × List ℕ
  calls zero s = (s, [])
  calls (suc n) s =
      let (s', phys) = pmalloc hz s in let (s'', rest) = calls n s' in (s'', phys ∷ rest)

  -- Whether an address that a call returned is page `f`'s.
  abbrev pub is_page : ℕ → ℕ → ℕ
  is_page f phys = if phys == 0 then 0 else bit (f == phys / page_size)

  pmalloc_early :
      (s : Pages)
      → s.early ≡ true
      → pmalloc hz s
        ≡ (record s { regions = (early_pmalloc s.regions).0 }, (early_pmalloc s.regions).1)
  unfolding pmalloc
  pmalloc_early s e = rw e refl

  -- A state before `early_pmalloc_finalize`.
  pub record IsEarly (s : Pages) : Type 0 where
    pub early : s.early ≡ true
    pub empty : s.list ≡ []
    pub aligned : AllAligned s.regions
    pub once : (f : ℕ) → region_cover s.regions f ≤ 1
    pub no_null : region_cover s.regions 0 ≡ 0

  IsEarly-step :
      (s : Pages)
      → IsEarly s
      → let (s', phys) = pmalloc hz s in
        IsEarly s'
        × ((f : ℕ) → region_cover s.regions f ≡ is_page f phys + region_cover s'.regions f)
  IsEarly-step s v =
      subst
        (λ r.
          IsEarly r.0
          × ((f : ℕ) → region_cover s.regions f ≡ is_page f r.1 + region_cover r.0.regions f))
        (sym (pmalloc_early s v.early))
        (elim (early_pmalloc-TakesEarly s.regions v.aligned) [
          | inl (page, at, takes, a) ↦ (
            record {
              early = v.early;
              empty = v.empty;
              aligned = a;
              once = λ f. omega (arith, takes f, v.once f);
              no_null = omega (arith, takes 0, v.no_null);
            },
            λ f. (rw at (ground (arith, takes f, takes 0, v.no_null))),
          )
          | inr (at, same, none_left) ↦ (
            subst (λ rs. IsEarly (record s { regions = rs })) (sym same) v,
            λ f. (rw (at, same) (omega arith)),
          )
        ])

  calls-IsEarly :
      (n : ℕ) (s : Pages)
      → IsEarly s
      → let (s', pages) = calls n s in
        IsEarly s'
        × ((f : ℕ)
            → region_cover s.regions f ≡ sum_by (is_page f) pages + region_cover s'.regions f)
  unfolding calls
  calls-IsEarly zero s v = (v, λ f. omega arith)
  calls-IsEarly (suc n) s v =
      let (v₁, step) = IsEarly-step s v in
      let (v₂, rest) = calls-IsEarly n (pmalloc hz s).0 v₁ in
      (v₂, λ f. omega (arith, step f, rest f))

  -- After `n` calls of `pmalloc` before `early_pmalloc_finalize`, that function makes free exactly
  -- the pages of the boot loader's regions that no call handed out, and no page was handed out
  -- twice. Page 0 is in no region.
  pub boot_lem :
      (n : ℕ) (s : Pages)
      → IsEarly s
      → let (s', pages) = calls n s in
        ((f : ℕ) → region_cover s.regions f ≡ sum_by (is_page f) pages + cover (finalize hz s') f)
        × IsValid (finalize hz s')
  boot_lem n s v =
      let (v', sums) = calls-IsEarly n s v in
      let (frees, ok, late) = finalize_lem hz (calls n s).0 v'.empty v'.aligned v'.once in
      (λ f. omega (arith, sums f, frees f), ok)
