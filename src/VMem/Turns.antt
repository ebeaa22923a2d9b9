-- ===== src/VMem/Turns.antt =====
-- `freelist_insert`: its loop ends.
use crescent.Common.{length, some, none, ℕ, zero, suc, ◌+◌, ◌≡◌, inl, inr, refl, sym, subst, arith}
use crescent.HzFront.{HzFront, HzBits}
use crescent.VMem.Segments.{unhook, VMem}
use crescent.VMem.Freelists.{
  freelist_insert, join, joined_prev, joined_next, freelist_insert_no_merge, coalesce,
}
use crescent.VMem.Hooks.{length-unhook, count-unhook, prev_of-on, Once}
use crescent.VMem.Arena.{Meets}
use crescent.VMem.Coalesce.{
  joined_prev-cases, joined_next-cases, coalesce-none, coalesce-prev, coalesce-next,
}

module _ (hz : HzFront) (bits : HzBits) where
  -- The loop joins the segment with neighbours in `n` turns, then files it, which leaves `t`. The
  -- relation has no bound on the turns.
  pub data Turns : ℕ → VMem → ℕ → VMem → Type 0 where
    files :
        {s : VMem} {seg : ℕ}
        → joined_prev hz bits s seg ≡ none
        → joined_next hz bits s seg ≡ none
        → Turns 0 s seg (freelist_insert_no_merge hz bits s seg)
    joins_prev :
        {n : ℕ} {s t : VMem} {seg : ℕ} (prev : ℕ)
        → joined_prev hz bits s seg ≡ some prev
        → Turns n (join hz bits s prev prev seg) prev t
        → Turns (suc n) s seg t
    joins_next :
        {n : ℕ} {s t : VMem} {seg : ℕ} (next : ℕ)
        → joined_prev hz bits s seg ≡ none
        → joined_next hz bits s seg ≡ some next
        → Turns n (join hz bits s next seg next) seg t
        → Turns (suc n) s seg t

  -- The loop ends in `t`, after as many turns as segments are off the list.
  abbrev pub Ends : VMem → ℕ → VMem → Type 0
  Ends s seg t = (n : ℕ) × Turns n s seg t × (n + length t.seg_list ≡ length s.seg_list)

  shorter :
      (s : VMem) (listed p q seg : ℕ)
      → Meets s listed p q seg
      → length s.seg_list ≡ suc (length (unhook q s.seg_list))
  shorter s listed p q seg m = length-unhook q s.seg_list (prev_of-on q p s.seg_list m.next_to).1

  join-Once :
      (s : VMem) (listed p q seg : ℕ)
      → Meets s listed p q seg
      → Once s.seg_list
      → Once (unhook q s.seg_list)
  join-Once s listed p q seg m single r =
      omega (arith, single r, count-unhook q r s.seg_list (prev_of-on q p s.seg_list m.next_to).1)

  coalesce-Ends :
      (n : ℕ) (s : VMem) (seg : ℕ)
      → Once s.seg_list
      → length s.seg_list ≡ n
      → Ends s seg (coalesce hz bits n s seg)
  unfolding join
  coalesce-Ends zero s seg single long = elim (joined_prev-cases hz bits s seg) [
    | inr (p, e, m) ↦ absurd (omega (arith, long, shorter s p p seg seg m))
    | inl e ↦ elim (joined_next-cases hz bits s seg single) [
      | inl f ↦
          subst (Ends s seg) (sym (coalesce-none hz bits zero s seg e f))
            (0, files e f, omega arith)
      | inr (q, f, m) ↦ absurd (omega (arith, long, shorter s q seg q seg m))
    ]
  ]
  coalesce-Ends (suc n) s seg single long = elim (joined_prev-cases hz bits s seg) [
    | inr (p, e, m) ↦
        let (k, turns, off) =
          coalesce-Ends n (join hz bits s p p seg) p (join-Once s p p seg seg m single)
            (omega (arith, long, shorter s p p seg seg m)) in
        subst (Ends s seg) (sym (coalesce-prev hz bits n s seg p e))
          (suc k, joins_prev p e turns, omega (arith, off, shorter s p p seg seg m))
    | inl e ↦ elim (joined_next-cases hz bits s seg single) [
      | inl f ↦
          subst (Ends s seg) (sym (coalesce-none hz bits (suc n) s seg e f))
            (0, files e f, omega arith)
      | inr (q, f, m) ↦
          let (k, turns, off) =
            coalesce-Ends n (join hz bits s q seg q) seg (join-Once s q seg q seg m single)
              (omega (arith, long, shorter s q seg q seg m)) in
          subst (Ends s seg) (sym (coalesce-next hz bits n s seg q e f))
            (suc k, joins_next q e f turns, omega (arith, off, shorter s q seg q seg m))
    ]
  ]

  -- Where each segment is on the list once, the loop of `freelist_insert`, which has no bound on its
  -- turns, ends in the state that the model computes: each turn but the last, which files the segment
  -- when no neighbour can be joined, takes one segment off the list.
  pub freelist_insert-Ends :
      (s : VMem) (seg : ℕ) → Once s.seg_list → Ends s seg (freelist_insert hz bits s seg)
  unfolding freelist_insert
  freelist_insert-Ends s seg single = coalesce-Ends (length s.seg_list) s seg single refl
