-- ===== src/Page/Cover.antt =====
-- Which page belongs to how many free runs.
use crescent.Common.{
  ℕ, sym, ◌∙◌, ◌+◌, ◌≤◌, ◌≡◌, refl, ◌≢◌, inl, inr, ◌&&◌, List, [], ◌∷◌, arith, ltb, leb, ◌==◌, bit,
  sum_by, Bool-cases,
}
use crescent.HzList.{HzList}
use crescent.Page.{Pages, set_count}

abbrev pub in_run : ℕ → ℕ → ℕ → ℕ
in_run base n f = bit (leb base f && ltb f (base + n))

-- The number of free runs that page `f` is in.
abbrev pub cover : Pages → ℕ → ℕ
cover s f = sum_by (λ b. in_run b (s.count b) f) s.list

-- No page is free twice, and no run on the list is empty.
pub record IsValid (s : Pages) : Type 0 where
  pub once : (f : ℕ) → cover s f ≤ 1
  pub full : sum_by (λ b. bit (s.count b == 0)) s.list ≡ 0

-- A weight changed at one number keeps its sum over a list without that number: `v` counts it.
pub sum_off :
    (w w' v : ℕ → ℕ) (q : ℕ) (l : List ℕ)
    → ((b : ℕ) → b ≢ q → w b ≡ w' b)
    → 1 ≤ v q
    → sum_by v l ≡ 0
    → sum_by w l ≡ sum_by w' l
sum_off w w' v q [] same one off = refl
sum_off w w' v q (x ∷ l) same one off = elim (Bool-cases (x == q)) [
  | inl e ↦ absurd (ground arith)
  | inr e ↦ ground (arith, same x (λ p. ground arith), sum_off w w' v q l same one)
]

pub sum_by-add : (v w : ℕ → ℕ) (l : List ℕ) → sum_by (λ b. v b + w b) l ≡ sum_by v l + sum_by w l
sum_by-add v w [] = refl
sum_by-add v w (x ∷ l) = omega (arith, sum_by-add v w l)

-- Counts 1 at least for a run that holds `q`, or that starts at `q`.
abbrev meets : Pages → ℕ → ℕ → ℕ
meets s q b = in_run b (s.count b) q + bit (s.count b == 0)

meets_self : (s : Pages) (q : ℕ) → 1 ≤ meets s q q
meets_self s q = ground arith

meets_none : (s : Pages) (q : ℕ) → IsValid s → cover s q ≡ 0 → sum_by (meets s q) s.list ≡ 0
meets_none s q v e =
    omega
      (arith, v.full, sum_by-add (λ b. in_run b (s.count b) q) (λ b. bit (s.count b == 0)) s.list)

-- A count written at a page that is in no free run changes no run.
cover-set_count :
    (s : Pages) (q n f : ℕ)
    → IsValid s
    → cover s q ≡ 0
    → cover (record s { count = set_count s.count q n }) f ≡ cover s f
cover-set_count s q n f v e = sym (
    sum_off (λ b. in_run b (s.count b) f) (λ b. in_run b (set_count s.count q n b) f) (meets s q) q
      s.list (λ b ne. ground arith) (meets_self s q) (meets_none s q v e))

full-set_count :
    (s : Pages) (q n : ℕ)
    → IsValid s
    → cover s q ≡ 0
    → sum_by (λ b. bit (set_count s.count q n b == 0)) s.list ≡ 0
full-set_count s q n v e =
    sym (
      sum_off (λ b. bit (s.count b == 0)) (λ b. bit (set_count s.count q n b == 0)) (meets s q) q
        s.list (λ b ne. ground arith) (meets_self s q) (meets_none s q v e))
    ∙ v.full

module _ (hz : HzList) where
  open hz use {push, sum-push}

  -- The run of `n` pages from `q` put on the list.
  abbrev pub with_run : Pages → ℕ → ℕ → Pages
  with_run s q n = record s { count = set_count s.count q n; list = push q s.list }

  -- A run that goes on the list adds its pages, if its first page was not free.
  pub cover-with_run :
      (s : Pages) (q n f : ℕ)
      → IsValid s
      → cover s q ≡ 0
      → cover (with_run s q n) f ≡ in_run q n f + cover s f
  cover-with_run s q n f v e = ground (
    arith,
    sum-push (λ b. in_run b (set_count s.count q n b) f) q s.list,
    cover-set_count s q n f v e,
  )

  pub with_run-IsValid :
      (s : Pages) (q n : ℕ)
      → IsValid s
      → 1 ≤ n
      → ((f : ℕ) → in_run q n f + cover s f ≤ 1)
      → IsValid (with_run s q n)
  with_run-IsValid s q n v pos apart = record {
    once = λ f. omega (arith, cover-with_run s q n f v free, apart f);
    full = ground (
      arith,
      sum-push (λ b. bit (set_count s.count q n b == 0)) q s.list,
      full-set_count s q n v free,
    );
  }
    where
      free : cover s q ≡ 0
      free = ground (arith, apart q)
