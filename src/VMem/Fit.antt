-- ===== src/VMem/Fit.antt =====
-- src/mem/vmem.cpp: `seg_fit`, which gives out a part of a segment.
use crescent.Common.{ℕ, Bool, ◌||◌, ltb, ◌==◌, if◌then◌else◌, add64, sub64}
use crescent.HzFront.{HzFront, HzBits}
use crescent.VMem.Segments.{free, used, VMem, put, hook_before, seg_alloc, seg_free, on_null}
use crescent.VMem.Freelists.{freelist_insert_no_merge, hashtab_insert, freelist_insert}

module _ (hz : HzFront) (bits : HzBits) where
  open hz use {push, push_front, remove, insert_before}
  open bits use {countl_zero, has_single_bit, lesser, greater}

  -- The lambda `seg_fit` of `xalloc`: `list` is `freelists[i]`.
  module _ (i : ℕ) (popped : Bool) (size low high : ℕ) where
    abbrev pub give_back : VMem → ℕ → VMem
    give_back s seg = record s {
      freelists =
          if popped then put s.freelists i (push_front (s.freelists i) seg) else s.freelists;
    }

    abbrev pub take_off : VMem → ℕ → VMem
    take_off s seg = record s {
      freelists = if popped then s.freelists else put s.freelists i (remove (s.freelists i) seg);
    }

    -- What precedes `start` becomes a free segment of its own.
    unfoldable pub cut_front : VMem → ℕ → ℕ → ℕ → VMem
    cut_front s seg new_seg start =
        let g = s.segment seg in
        let before = sub64 start g.base in
        freelist_insert_no_merge hz bits
          (record s {
            segment =
                put (put s.segment new_seg (record { base = g.base; size = before; type = free }))
                  seg (record { base = start; size = sub64 g.size before; type = g.type });
            seg_list = insert_before s.seg_list seg new_seg;
          })
          new_seg

    -- The first `size` bytes become a used segment.
    unfoldable pub cut_used : VMem → ℕ → ℕ → VMem
    unfolding freelist_insert
    cut_used s seg alloc_seg =
        let g = s.segment seg in
        hashtab_insert hz bits
          (freelist_insert hz bits
            (record s {
              segment =
                  put (put s.segment alloc_seg (record { base = g.base; size = size; type = used }))
                    seg
                    (record { base = add64 g.base size; size = sub64 g.size size; type = g.type });
              seg_list = hook_before seg alloc_seg s.seg_list;
            })
            seg)
          alloc_seg

    -- From `list.remove(seg)` on: the segment starts where it is wanted.
    unfoldable pub place : VMem → ℕ → ℕ → VMem × ℕ
    unfolding cut_used
    place s seg alloc_seg =
        let t = take_off s seg in
        if (s.segment seg).size == size
        then (hashtab_insert hz bits (seg_free t alloc_seg) seg, (s.segment seg).base)
        else (let u = cut_used t seg alloc_seg in (u, (u.segment alloc_seg).base))

    -- From the first `seg_alloc` on.
    unfoldable pub split : VMem → ℕ → ℕ → VMem × ℕ
    unfolding place cut_front seg_alloc
    split s seg start =
        on_null (seg_alloc s) (λ t. (give_back t seg, 0))
          (λ t alloc_seg.
            if start == (s.segment seg).base
            then place t seg alloc_seg
            else on_null (seg_alloc t) (λ u. (seg_free (give_back u seg) alloc_seg, 0))
                (λ u new_seg. place (cut_front u seg new_seg start) seg alloc_seg))

    unfoldable pub seg_fit : VMem → ℕ → VMem × ℕ
    unfolding split
    seg_fit s seg =
        let g = s.segment seg in
        let start = greater g.base low in
        let end = lesser (add64 g.base g.size) high in
        if ltb end start || ltb (sub64 end start) size
        then (give_back s seg, 0)
        else (if g.size == size
            then (hashtab_insert hz bits (take_off s seg) seg, g.base)
            else split s seg start)
