-- ===== src/VMem/Held.antt =====
-- The segment that `seg_fit` works on: on no list once it is popped, and else still on its freelist.
use crescent.Common.{
  ℕ, ◌+◌, ◌≤◌, ◌<◌, ◌^◌, ◌≡◌, inl, inr, refl, ap, arith, Bool, true, false, List, [], ◌∷◌, ◌==◌,
  bit, if◌then◌else◌, Bool-cases,
}
use crescent.HzFront.{HzFront, HzBits, count}
use crescent.VMem.Segments.{VMem, is_free}
use crescent.VMem.Freelists.{size_to_index}
use crescent.VMem.Fit.{give_back, take_off}
use crescent.VMem.Tiles.{Tiles}
use crescent.VMem.Files.{Files, Files-counts, Files-back, in_freelist}
use crescent.VMem.Pool.{Pool, Pool-Once}
use crescent.VMem.Arena.{Arena}

module _ (hz : HzFront) (bits : HzBits) (i : ℕ) (popped : Bool) (size low high : ℕ) where
  open hz use {remove, count-remove, push_front, push_front_lem}

  abbrev index : ℕ → ℕ
  index = size_to_index hz bits

  -- What `freelists[j]` holds beside the segments that are filed there.
  abbrev pub lift : ℕ → ℕ → ℕ → ℕ
  lift seg j q = if popped then 0 else (if j == i then bit (q == seg) else 0)

  -- `fl` are the freelists without `seg`.
  pub record Held (s : VMem) (fl : ℕ → List ℕ) (seg : ℕ) (hand : List ℕ) : Type 0 where
    pub tiles : Tiles s.segment s.base s.seg_list (s.base + s.size)
    pub small : s.base + s.size < 2 ^ 64
    pub files : Files index s.segment fl s.hash_tab s.seg_list (seg ∷ [])
    pub pool : Pool s hand
    pub on : 1 ≤ count seg s.seg_list
    pub kind : is_free (s.segment seg).type ≡ true
    pub lifts : (j q : ℕ) → count q (s.freelists j) ≡ lift seg j q + count q (fl j)

  module _ (s : VMem) (fl : ℕ → List ℕ) (seg : ℕ) (hand : List ℕ) (h : Held s fl seg hand) where
    single : count seg s.seg_list ≡ 1
    single = omega (arith, h.on, Pool-Once s hand h.pool seg)

    abbrev given : ℕ → List ℕ
    given = (give_back hz bits i popped size low high s seg).freelists

    abbrev taken : ℕ → List ℕ
    taken = (take_off hz bits i popped size low high s seg).freelists

    pushed :
        (q : ℕ)
        → count q (push_front (s.freelists i) seg) ≡ bit (q == seg) + count q (s.freelists i)
    pushed q = ap (count q) (push_front_lem (s.freelists i) seg)

    count-given :
        (j q : ℕ) → count q (given j) ≡ (if j == i then bit (q == seg) else 0) + count q (fl j)
    count-given j q = ground (arith, pushed q, h.lifts j q, h.lifts i q)

    lifted : popped ≡ false → 1 ≤ count seg (s.freelists i)
    lifted e = ground (arith, h.lifts i seg)

    count-taken : (j q : ℕ) → count q (taken j) ≡ count q (fl j)
    count-taken j q = elim (Bool-cases popped) [
      | inl e ↦ ground (arith, h.lifts j q)
      | inr e ↦
          ground (arith, count-remove (s.freelists i) seg q (lifted e), h.lifts j q, h.lifts i q)
    ]

    pub give_back-Arena :
        in_freelist index (s.segment seg) i ≡ true
        → Arena hz bits (give_back hz bits i popped size low high s seg) hand []
    give_back-Arena home = record {
      tiles = h.tiles;
      small = h.small;
      files =
          Files-back index s.segment fl s.hash_tab s.seg_list [] given i seg count-given single refl
            home h.files;
      pool = record { pooled = h.pool.pooled; fresh = h.pool.fresh; aligned = h.pool.aligned };
    }

    pub take_off-Arena :
        Arena hz bits (take_off hz bits i popped size low high s seg) hand (seg ∷ [])
    take_off-Arena = record {
      tiles = h.tiles;
      small = h.small;
      files =
          Files-counts index s.segment fl s.hash_tab s.seg_list (seg ∷ []) taken count-taken
            h.files;
      pool = record { pooled = h.pool.pooled; fresh = h.pool.fresh; aligned = h.pool.aligned };
    }
