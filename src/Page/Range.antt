-- ===== src/Page/Range.antt =====
-- `pmalloc_in_range`: the first free run that starts in the range.
use crescent.Common.{
  ℕ, subst, sym, ◌*◌, ◌≤◌, ◌<◌, ◌≡◌, refl, ◌⊎◌, inl, inr, Bool, true, false, ◌&&◌, none, some, List,
  [], ◌∷◌, arith, ltb, leb, Option-cases, mem,
}
use crescent.HzList.{HzList}
use crescent.Page.{Pages, keep_rest, page_size, find_in_range, pmalloc_in_range}
use crescent.Page.Cover.{IsValid}
use crescent.Page.Single.{Takes, Fails, keep_rest-Loses}

abbrev pub starts_in : ℕ → ℕ → ℕ → Bool
starts_in low high page = leb low (page * page_size) && ltb (page * page_size) high

module _ (hz : HzList) where
  open hz use {remove, sum-remove}

  find_in_range-some :
      (low high page : ℕ) (l : List ℕ)
      → find_in_range hz low high l ≡ some page
      → (mem page l ≡ true) × (starts_in low high page ≡ true)
  unfolding find_in_range
  find_in_range-some low high page [] e = cc
  find_in_range-some low high page (x ∷ l) e = ground (arith, find_in_range-some low high page l)

  find_in_range-none :
      (low high b : ℕ) (l : List ℕ)
      → find_in_range hz low high l ≡ none
      → mem b l ≡ true
      → starts_in low high b ≡ false
  unfolding find_in_range
  find_in_range-none low high b [] e m = cc
  find_in_range-none low high b (x ∷ l) e m = ground (arith, find_in_range-none low high b l)

  -- What the outcome of `pmalloc_in_range` may be.
  abbrev pub AllocatesIn : ℕ → ℕ → Pages → Pages × ℕ → Type 0
  AllocatesIn low high s r =
      (Takes s r × (low ≤ r.1) × (r.1 < high))
      ⊎ (Fails s r × ((b : ℕ) → mem b s.list ≡ true → starts_in low high b ≡ false))

  in_range_none :
      (s : Pages) (low high : ℕ)
      → find_in_range hz low high s.list ≡ none
      → pmalloc_in_range hz s low high ≡ (s, 0)
  unfolding pmalloc_in_range
  in_range_none s low high e = rw (e, pmalloc_in_range) refl

  in_range_some :
      (s : Pages) (low high page : ℕ)
      → find_in_range hz low high s.list ≡ some page
      → pmalloc_in_range hz s low high
        ≡ (keep_rest hz (record s { list = remove page s.list }) page, page * page_size)
  unfolding pmalloc_in_range
  in_range_some s low high page e = rw (e, pmalloc_in_range) refl

  -- `pmalloc_in_range` hands out a page of the range that was free, and changes no other; it fails
  -- only if no free run starts in the range.
  pub pmalloc_in_range-AllocatesIn :
      (s : Pages) (low high : ℕ)
      → IsValid s
      → AllocatesIn low high s (pmalloc_in_range hz s low high)
  pmalloc_in_range-AllocatesIn s low high v =
      elim (Option-cases (find_in_range hz low high s.list)) [
        | inl e ↦
            subst (AllocatesIn low high s) (sym (in_range_none s low high e))
              (inr ((refl, refl), λ b m. find_in_range-none low high b s.list e m))
        | inr (page, e) ↦
            let (m, ok) = find_in_range-some low high page s.list e in
            subst (AllocatesIn low high s) (sym (in_range_some s low high page e)) (
              inl (
                (
                  page,
                  refl,
                  keep_rest-Loses hz s page (remove page s.list) v
                      (λ w. sum-remove w page s.list m),
                ),
                ground arith,
                ground arith,
              ))
      ]
