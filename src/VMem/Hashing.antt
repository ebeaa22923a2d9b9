-- ===== src/VMem/Hashing.antt =====
-- `hashtab_insert`: a segment of the arena that becomes used.
use crescent.Common.{ℕ, ◌+◌, ◌≤◌, ◌≡◌, refl, ap, arith, true, false, List, [], ◌∷◌}
use crescent.HzFront.{HzFront, HzBits, count}
use crescent.VMem.Segments.{used, Segment, VMem, is_free, is_span, seg_free, bucket}
use crescent.VMem.Freelists.{size_to_index, hashtab_insert}
use crescent.VMem.Tiles.{Tiles-same}
use crescent.VMem.Files.{Files-hash}
use crescent.VMem.Pool.{Pool-Once}
use crescent.VMem.Totals.{total, total-put}
use crescent.VMem.Arena.{Arena, Gives, free-span}

module _ (hz : HzFront) (bits : HzBits) where
  open hz use {push_front, push_front_lem}

  module _ (u : VMem) (p : ℕ) (hand out : List ℕ) (v : Arena hz bits u hand (p ∷ out))
      (on : 1 ≤ count p u.seg_list) where
    abbrev taken : Segment
    taken = record (u.segment p) { type = used }

    single : count p u.seg_list ≡ 1
    single = omega (arith, on, Pool-Once u hand v.pool p)

    pub hashtab_insert-Arena :
        is_span (u.segment p).type ≡ false
        → count p out ≡ 0
        → Arena hz bits (hashtab_insert hz bits u p) hand out
    hashtab_insert-Arena kind apart = record {
      tiles =
          Tiles-same u.segment u.base u.seg_list (u.base + u.size) p taken (Pool-Once u hand v.pool)
            refl refl (ground (arith, kind)) v.tiles;
      small = v.small;
      files =
          Files-hash (size_to_index hz bits) u.segment u.freelists u.hash_tab u.seg_list out p taken
            (push_front (u.hash_tab (bucket (u.segment p).base)) p) single apart refl
            (λ q. ap (count q) (push_front_lem (u.hash_tab (bucket (u.segment p).base)) p)) v.files;
      pool = record { pooled = v.pool.pooled; fresh = v.pool.fresh; aligned = v.pool.aligned };
    }

    pub hashtab_insert-total :
        (w : Segment → ℕ)
        → let t = hashtab_insert hz bits u p in
          total w t.segment t.seg_list + w (u.segment p) ≡ total w u.segment u.seg_list + w taken
    hashtab_insert-total w = total-put w u.segment u.seg_list p taken single

  pub seg_free-Arena :
      (t : VMem) (p : ℕ) (hand out : List ℕ)
      → Arena hz bits t (p ∷ hand) out
      → Arena hz bits (seg_free t p) hand out
  seg_free-Arena t p hand out v = record {
    tiles = v.tiles;
    small = v.small;
    files = v.files;
    pool = record {
      pooled = λ q. omega (arith, v.pool.pooled q);
      fresh = v.pool.fresh;
      aligned = v.pool.aligned;
    };
  }

  -- A free segment that is on no list becomes used, all of it.
  pub hashtab_insert-Gives :
      (t : VMem) (seg size : ℕ)
      → Arena hz bits t [] (seg ∷ [])
      → 1 ≤ count seg t.seg_list
      → is_free (t.segment seg).type ≡ true
      → (t.segment seg).size ≡ size
      → Gives hz bits t (hashtab_insert hz bits t seg) (t.segment seg).base size
  hashtab_insert-Gives t seg size v on kind e = record {
    arena = hashtab_insert-Arena t seg [] [] v on (free-span (t.segment seg).type kind) refl;
    same = (refl, refl, refl);
    sums = λ w blind. omega (
      arith,
      hashtab_insert-total t seg [] [] v on w,
      blind (t.segment seg) kind,
      ap (λ n. w (record { base = (t.segment seg).base; size = n; type = used })) e,
    );
  }
