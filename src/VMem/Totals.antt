-- ===== src/VMem/Totals.antt =====
-- Sums over the segments of an arena, by which those in use are counted.
use crescent.Common.{◌==◌, Bool-cases, inl, inr, ℕ, ◌+◌, ◌≤◌, ◌≡◌, refl, ap, arith, List, [], ◌∷◌}
use crescent.HzFront.{count}
use crescent.VMem.Segments.{Segment, put, unhook, hook_before}
use crescent.VMem.Tiles.{put-other}

module _ (w : Segment → ℕ) where
  abbrev pub total : (ℕ → Segment) → List ℕ → ℕ
  total f [] = 0
  total f (p ∷ l) = w (f p) + total f l

  pub total-put_off :
      (f : ℕ → Segment) (l : List ℕ) (q : ℕ) (g : Segment)
      → count q l ≡ 0
      → total (put f q g) l ≡ total f l
  total-put_off f [] q g off = refl
  total-put_off f (p ∷ l) q g off =
      omega (arith, ap w (put-other f q p g (ground arith)), total-put_off f l q g (ground arith))

  pub total-put :
      (f : ℕ → Segment) (l : List ℕ) (q : ℕ) (g : Segment)
      → count q l ≡ 1
      → total (put f q g) l + w (f q) ≡ total f l + w g
  total-put f [] q g on = absurd (omega arith)
  total-put f (p ∷ l) q g on = ground (arith, total-put f l q g, total-put_off f l q g)

  pub total-unhook :
      (f : ℕ → Segment) (l : List ℕ) (q : ℕ)
      → 1 ≤ count q l
      → total f l ≡ w (f q) + total f (unhook q l)
  unfolding unhook
  total-unhook f [] q on = absurd (omega arith)
  total-unhook f (p ∷ l) q on = ground (arith, total-unhook f l q)

  pub total-hook :
      (f : ℕ → Segment) (l : List ℕ) (p new : ℕ)
      → 1 ≤ count p l
      → total f (hook_before p new l) ≡ w (f new) + total f l
  unfolding hook_before
  total-hook f [] p new on = absurd (omega arith)
  total-hook f (x ∷ l) p new on = ground (arith, total-hook f l p new)

  pub total-some :
      (f : ℕ → Segment) (l : List ℕ) → 1 ≤ total f l → (p : ℕ) × (1 ≤ count p l) × (1 ≤ w (f p))
  total-some f [] on = absurd (omega arith)
  total-some f (x ∷ l) on = elim (Bool-cases (w (f x) == 0)) [
    | inl e ↦
        let (p, there, weighs) = total-some f l (ground arith) in (p, omega (arith, there), weighs)
    | inr e ↦ (x, ground arith, ground arith)
  ]

  pub total-le : (f : ℕ → Segment) (l : List ℕ) (p : ℕ) → 1 ≤ count p l → w (f p) ≤ total f l
  total-le f [] p on = absurd (omega arith)
  total-le f (x ∷ l) p on = ground (arith, total-le f l p)
