-- ===== src/VMem/Files.antt =====
-- Which list a segment is filed on, and what the writes to the lists do to that.
use crescent.Common.{
  ℕ, ◌+◌, ◌≤◌, ◌≡◌, ◌∙◌, arith, Bool, true, ◌&&◌, List, ◌∷◌, ◌==◌, bit, if◌then◌else◌,
}
use crescent.HzFront.{count}
use crescent.VMem.Segments.{Segment, is_free, is_used, put, bucket, unhook, hook_before}
use crescent.VMem.Hooks.{Once, count-unhook, count-hook_before}

-- How often a segment that is `n` times in the arena is on a list that it belongs on if `b`; `o`
-- tells if it is being moved.
abbrev pub share : ℕ → Bool → ℕ → ℕ
share o b n = if o == 0 && b then n else 0

module _ (index : ℕ → ℕ) where
  abbrev pub in_freelist : Segment → ℕ → Bool
  in_freelist g i = is_free g.type && index g.size == i

  abbrev pub in_bucket : Segment → ℕ → Bool
  in_bucket g i = is_used g.type && bucket g.base == i

  -- Each segment of the arena is filed once: if it is free in the freelist of its size, and if it
  -- is used in the bucket of its address. Those of `out` are on no list.
  pub record Files (segment : ℕ → Segment) (freelists hash_tab : ℕ → List ℕ) (seg_list out : List ℕ)
      : Type 0 where
    pub freed :
        (i p : ℕ)
        → count p (freelists i) ≡ share (count p out) (in_freelist (segment p) i) (count p seg_list)
    pub hashed :
        (i p : ℕ)
        → count p (hash_tab i) ≡ share (count p out) (in_bucket (segment p) i) (count p seg_list)

  module _ (f : ℕ → Segment) (fl ht : ℕ → List ℕ) (l out : List ℕ) where
    -- Taking a segment off its freelist.
    pub Files-unfree :
        (i p : ℕ) (rest : List ℕ)
        → Once l
        → 1 ≤ count p (fl i)
        → ((q : ℕ) → count q (fl i) ≡ bit (q == p) + count q rest)
        → Files f fl ht l out
        → Files f (put fl i rest) ht l (p ∷ out)
    Files-unfree i p rest once on off v = record {
      freed = λ j q. ground (arith, v.freed j q, v.freed i q, off q, once q);
      hashed = λ j q. ground (arith, v.hashed j q, v.freed i q);
    }

    -- Taking one out of its bucket.
    pub Files-unhash :
        (i p : ℕ) (rest : List ℕ)
        → Once l
        → 1 ≤ count p (ht i)
        → ((q : ℕ) → count q (ht i) ≡ bit (q == p) + count q rest)
        → Files f fl ht l out
        → Files f fl (put ht i rest) l (p ∷ out)
    Files-unhash i p rest once on off v = record {
      freed = λ j q. ground (arith, v.freed j q, v.hashed i q);
      hashed = λ j q. ground (arith, v.hashed j q, v.hashed i q, off q, once q);
    }

    -- A segment of the arena that is filed again.
    module _ (p : ℕ) (g : Segment) (rest : List ℕ) (there : count p l ≡ 1)
        (none_out : count p out ≡ 0) where
      pub Files-free :
          is_free g.type ≡ true
          → ((q : ℕ) → count q rest ≡ bit (q == p) + count q (fl (index g.size)))
          → Files f fl ht l (p ∷ out)
          → Files (put f p g) (put fl (index g.size) rest) ht l out
      Files-free kind more v = record {
        freed = λ j q. ground (arith, v.freed j q, more q);
        hashed = λ j q. ground (arith, v.hashed j q);
      }

      pub Files-hash :
          is_used g.type ≡ true
          → ((q : ℕ) → count q rest ≡ bit (q == p) + count q (ht (bucket g.base)))
          → Files f fl ht l (p ∷ out)
          → Files (put f p g) fl (put ht (bucket g.base) rest) l out
      Files-hash kind more v = record {
        freed = λ j q. ground (arith, v.freed j q);
        hashed = λ j q. ground (arith, v.hashed j q, more q);
      }

    -- A write to a segment that is being moved, or that is not in the arena.
    pub Files-put :
        (p : ℕ) (g : Segment)
        → ((q : ℕ) → q ≡ p → share (count q out) true (count q l) ≡ 0)
        → Files f fl ht l out
        → Files (put f p g) fl ht l out
    Files-put p g off v = record {
      freed = λ j q. ground (arith, v.freed j q, off q);
      hashed = λ j q. ground (arith, v.hashed j q, off q);
    }

    -- A segment that leaves the arena, and one that enters it.
    pub Files-unhook :
        (p : ℕ)
        → Once l
        → 1 ≤ count p l
        → Files f fl ht l (p ∷ out)
        → Files f fl ht (unhook p l) out
    Files-unhook p once on v = record {
      freed = λ j q. ground (arith, v.freed j q, count-unhook p q l on, once q);
      hashed = λ j q. ground (arith, v.hashed j q, count-unhook p q l on, once q);
    }

    pub Files-hook :
        (p new : ℕ)
        → 1 ≤ count p l
        → count new l ≡ 0
        → Files f fl ht l out
        → Files f fl ht (hook_before p new l) (new ∷ out)
    Files-hook p new on fresh v = record {
      freed = λ j q. ground (arith, v.freed j q, count-hook_before p new q l on);
      hashed = λ j q. ground (arith, v.hashed j q, count-hook_before p new q l on);
    }

    -- In which order segments are moved does not matter.
    pub Files-swap : (p q : ℕ) → Files f fl ht l (p ∷ q ∷ out) → Files f fl ht l (q ∷ p ∷ out)
    Files-swap p q v = record {
      freed = λ j r. ground (arith, v.freed j r);
      hashed = λ j r. ground (arith, v.hashed j r);
    }

    -- The lists count, and not the order on them.
    pub Files-counts :
        (fl' : ℕ → List ℕ)
        → ((j q : ℕ) → count q (fl' j) ≡ count q (fl j))
        → Files f fl ht l out
        → Files f fl' ht l out
    Files-counts fl' same v = record { freed = λ j q. same j q ∙ v.freed j q; hashed = v.hashed }

    -- A free segment that goes back where it was.
    pub Files-back :
        (fl' : ℕ → List ℕ) (i p : ℕ)
        → ((j q : ℕ) → count q (fl' j) ≡ (if j == i then bit (q == p) else 0) + count q (fl j))
        → count p l ≡ 1
        → count p out ≡ 0
        → in_freelist (f p) i ≡ true
        → Files f fl ht l (p ∷ out)
        → Files f fl' ht l out
    Files-back fl' i p back on apart home v = record {
      freed = λ j q. ground (arith, back j q, v.freed j q);
      hashed = λ j q. ground (arith, v.hashed j q);
    }
