-- ===== src/VMem/Place.antt =====
-- `seg_fit` where the segment starts with the room that is wanted.
use crescent.Common.{
  ℕ, ◌+◌, ◌≤◌, ◌<◌, ◌^◌, ◌≡◌, inl, inr, refl, sym, ap, ◌∙◌, subst, arith, Bool, true, false, List,
  [], ◌∷◌, ◌==◌, bit, add64, sub64, if◌then◌else◌, Bool-cases, length,
}
use crescent.HzFront.{HzFront, HzBits, count}
use crescent.VMem.Segments.{used, Segment, VMem, is_free, is_span, put, hook_before, seg_free}
use crescent.VMem.Freelists.{size_to_index, freelist_insert, hashtab_insert}
use crescent.VMem.Fit.{take_off, cut_used, place}
use crescent.VMem.Tiles.{Tiles, Tiles-hook, Tiles-room, put-other, put_self}
use crescent.VMem.Hooks.{Once, count-hook_before}
use crescent.VMem.Files.{Files, Files-put, Files-hook, Files-swap}
use crescent.VMem.Pool.{page_of, Pool-Once}
use crescent.VMem.Totals.{total, total-put, total-put_off, total-hook}
use crescent.VMem.Arena.{Arena, Pending, Gives, free-span, Blind}
use crescent.VMem.Coalesce.{Inserts, coalesce-Inserts}
use crescent.VMem.Held.{Held, take_off-Arena}
use crescent.VMem.Hashing.{
  hashtab_insert-Arena, hashtab_insert-Gives, hashtab_insert-total, seg_free-Arena,
}

module _ (hz : HzFront) (bits : HzBits) where
  module _ (i : ℕ) (popped : Bool) (size low high : ℕ) where
    module _ (t : VMem) (seg alloc_seg : ℕ) (v : Arena hz bits t (alloc_seg ∷ []) (seg ∷ []))
        (on : 1 ≤ count seg t.seg_list) (kind : is_free (t.segment seg).type ≡ true)
        (some_room : 1 ≤ size) (more : size < (t.segment seg).size) where
      abbrev front : Segment
      front = record { base = (t.segment seg).base; size = size; type = used }

      abbrev back : Segment
      back = record {
        base = add64 (t.segment seg).base size;
        size = sub64 (t.segment seg).size size;
        type = (t.segment seg).type;
      }

      abbrev heap : ℕ → Segment
      heap = put (put t.segment alloc_seg front) seg back

      abbrev u : VMem
      u = record t { segment = heap; seg_list = hook_before seg alloc_seg t.seg_list }

      once : Once t.seg_list
      once = Pool-Once t (alloc_seg ∷ []) v.pool

      fresh : count alloc_seg t.seg_list ≡ 0
      fresh = ground (arith, v.pool.pooled alloc_seg, v.pool.fresh (page_of alloc_seg))

      apart : alloc_seg == seg ≡ false
      apart = ground (arith, on, fresh)

      hooked :
          (q : ℕ)
          → count q (hook_before seg alloc_seg t.seg_list)
            ≡ bit (q == alloc_seg) + count q t.seg_list
      hooked q = count-hook_before seg alloc_seg q t.seg_list on

      heap-alloc : heap alloc_seg ≡ front
      heap-alloc =
          put-other (put t.segment alloc_seg front) seg alloc_seg back apart
          ∙ put_self t.segment alloc_seg alloc_seg front (ground arith)

      heap-seg : heap seg ≡ back
      heap-seg = put_self (put t.segment alloc_seg front) seg seg back (ground arith)

      room : (t.segment seg).base + (t.segment seg).size < 2 ^ 64
      room = ground (
        arith,
        Tiles-room t.segment t.base t.seg_list (t.base + t.size) seg v.tiles on,
        v.small,
        free-span (t.segment seg).type kind,
      )

      cut-Tiles : Tiles heap t.base u.seg_list (t.base + t.size)
      cut-Tiles =
          Tiles-hook t.segment (t.base + t.size) seg alloc_seg front back refl
            (omega (arith, room, more)) (omega (arith, room, more)) some_room
            (omega (arith, room, more)) refl all all t.base t.seg_list on once fresh v.tiles
        where
          all : {n : ℕ} → (if is_span (t.segment seg).type then 0 else n) ≡ n
          all = ground (arith, free-span (t.segment seg).type kind)

      cut-Files :
          Files
            (size_to_index hz bits)
            heap
            t.freelists
            t.hash_tab
            u.seg_list
            (seg ∷ alloc_seg ∷ [])
      cut-Files =
          Files-swap (size_to_index hz bits) heap t.freelists t.hash_tab u.seg_list [] alloc_seg seg
            (Files-hook (size_to_index hz bits) heap t.freelists t.hash_tab t.seg_list (seg ∷ [])
              seg alloc_seg on fresh
              (Files-put (size_to_index hz bits) (put t.segment alloc_seg front) t.freelists
                t.hash_tab t.seg_list (seg ∷ []) seg back (λ q same. ground arith)
                (Files-put (size_to_index hz bits) t.segment t.freelists t.hash_tab t.seg_list
                  (seg ∷ []) alloc_seg front
                  (λ q same. ground (arith, fresh, ap (λ k. count k t.seg_list) same)) v.files)))

      u-Pending : Pending hz bits u seg [] (alloc_seg ∷ [])
      u-Pending = record {
        arena = record {
          tiles = cut-Tiles;
          small = v.small;
          files = cut-Files;
          pool = record {
            pooled = λ p. omega (arith, v.pool.pooled p, hooked p);
            fresh = v.pool.fresh;
            aligned = v.pool.aligned;
          };
        };
        on = ground (arith, hooked seg, on);
        kind = ap (λ g. is_span g.type) heap-seg ∙ free-span (t.segment seg).type kind;
        apart = ground (arith, apart);
        taken = λ q on.
            ap (λ k. is_free (heap k).type) (ground arith) ∙ ap (λ g. is_free g.type) heap-alloc;
      }

      abbrev filed : VMem
      filed = freelist_insert hz bits u seg

      inserted : Inserts hz bits u filed seg [] (alloc_seg ∷ [])
      unfolding freelist_insert
      inserted = coalesce-Inserts hz bits (length u.seg_list) u seg [] (alloc_seg ∷ []) u-Pending

      -- Filing the rest leaves the used part alone.
      alone : (filed.segment alloc_seg ≡ front) × (count alloc_seg filed.seg_list ≡ 1)
      alone =
          let (same, on') =
            inserted.keeps.kept alloc_seg (ap (λ g. is_free g.type) heap-alloc) apart in
          (same ∙ heap-alloc, ground (arith, on', hooked alloc_seg, fresh))

      u-total :
          (w : Segment → ℕ)
          → Blind w
          → total w heap u.seg_list ≡ w front + total w t.segment t.seg_list
      u-total w blind = omega (
        arith,
        total-hook w heap t.seg_list seg alloc_seg on,
        ap w heap-alloc,
        total-put w (put t.segment alloc_seg front) t.seg_list seg back
            (omega (arith, on, once seg)),
        ap w (put-other t.segment alloc_seg seg front (ground (arith, apart))),
        total-put_off w t.segment t.seg_list alloc_seg front fresh,
        blind back kind,
        blind (t.segment seg) kind,
      )

      cut_used-Gives :
          Gives hz bits t
            (cut_used hz bits i popped size low high t seg alloc_seg)
            (t.segment seg).base
            size
      unfolding cut_used
      cut_used-Gives = record {
        arena =
            hashtab_insert-Arena hz bits filed alloc_seg [] [] inserted.arena
              (omega (arith, alone.1)) (ap (λ g. is_span g.type) alone.0) refl;
        same = (inserted.keeps.base, inserted.keeps.size, inserted.keeps.quantum);
        sums = λ w blind. omega (
          arith,
          hashtab_insert-total hz bits filed alloc_seg [] [] inserted.arena (omega (arith, alone.1))
              w,
          ap w alone.0,
          ap (λ g. w (record g { type = used })) alone.0,
          inserted.drops w blind,
          ap w heap-seg,
          blind back kind,
          u-total w blind,
        );
      }

      cut_used-at :
          ((cut_used hz bits i popped size low high t seg alloc_seg).segment alloc_seg).base
          ≡ (t.segment seg).base
      unfolding cut_used
      cut_used-at =
          ap (λ g. g.base)
            (put_self filed.segment alloc_seg alloc_seg
              (record (filed.segment alloc_seg) { type = used }) (ground arith))
          ∙ ap (λ g. g.base) alone.0

    -- `place` gives out the first `size` bytes of the segment.
    module _ (s : VMem) (fl : ℕ → List ℕ) (seg alloc_seg : ℕ)
        (h : Held hz bits i popped size low high s fl seg (alloc_seg ∷ []))
        (some_room : 1 ≤ size) where
      abbrev off : VMem
      off = take_off hz bits i popped size low high s seg

      pub place-Gives :
          size ≤ (s.segment seg).size
          → let (u, addr) = place hz bits i popped size low high s seg alloc_seg in
            Gives hz bits s u addr size × (addr ≡ (s.segment seg).base)
      unfolding place
      place-Gives enough = elim (Bool-cases ((s.segment seg).size == size)) [
        | inl e ↦ rw e (exact (ground arith), refl)
        | inr e ↦ rw e (
          cut (ground arith),
          cut_used-at off seg alloc_seg v h.on h.kind some_room (ground arith),
        )
      ]
        where
          v : Arena hz bits off (alloc_seg ∷ []) (seg ∷ [])
          v = take_off-Arena hz bits i popped size low high s fl seg (alloc_seg ∷ []) h

          exact :
              (s.segment seg).size ≡ size
              → Gives hz bits s
                  (hashtab_insert hz bits (seg_free off alloc_seg) seg)
                  (s.segment seg).base
                  size
          exact e =
              let g =
                hashtab_insert-Gives hz bits (seg_free off alloc_seg) seg size
                  (seg_free-Arena hz bits off alloc_seg [] (seg ∷ []) v) h.on h.kind e in
              record { arena = g.arena; same = g.same; sums = g.sums }

          cut :
              size < (s.segment seg).size
              → (let u = cut_used hz bits i popped size low high off seg alloc_seg in
                  Gives hz bits s u (u.segment alloc_seg).base size)
          cut more =
              let g = cut_used-Gives off seg alloc_seg v h.on h.kind some_room more in
              subst
                (λ a.
                  Gives hz bits s (cut_used hz bits i popped size low high off seg alloc_seg) a
                    size)
                (sym (cut_used-at off seg alloc_seg v h.on h.kind some_room more))
                (record { arena = g.arena; same = g.same; sums = g.sums })
