-- ===== src/VMem/Cut.antt =====
-- `seg_fit` where the room that is wanted does not start with the segment.
use crescent.Common.{
  ℕ, ◌+◌, ◌<◌, ◌^◌, ◌≡◌, refl, sym, ap, ◌∙◌, subst, arith, Bool, false, List, [], ◌∷◌, ◌==◌, bit,
  sub64, if◌then◌else◌,
}
use crescent.HzFront.{HzFront, HzBits, count}
use crescent.VMem.Segments.{free, Segment, VMem, is_free, is_span, put, hook_before}
use crescent.VMem.Freelists.{size_to_index, freelist_insert_no_merge}
use crescent.VMem.Fit.{cut_front}
use crescent.VMem.Tiles.{Tiles, Tiles-same, Tiles-hook, Tiles-room, put-other, put_self, extent}
use crescent.VMem.Hooks.{Once, insert_before-hook_before, count-hook_before}
use crescent.VMem.Files.{Files, Files-free, Files-put, Files-hook}
use crescent.VMem.Pool.{page_of, Pool-Once}
use crescent.VMem.Totals.{total, total-put, total-put_off, total-hook}
use crescent.VMem.Arena.{free-span, Blind}
use crescent.VMem.Held.{Held}

module _ (hz : HzFront) (bits : HzBits) (i : ℕ) (popped : Bool) (size low high : ℕ) where
  open hz use {push_front, push_front_lem}

  -- The segment now starts at `start`, and what it lost is free.
  pub record Cuts (s : VMem) (seg start : ℕ) (hand : List ℕ) (t : VMem) : Type 0 where
    pub fl : ℕ → List ℕ
    pub held : Held hz bits i popped size low high t fl seg hand
    pub same_base : t.base ≡ s.base
    pub same_size : t.size ≡ s.size
    pub same_quantum : t.quantum ≡ s.quantum
    pub at : (t.segment seg).base ≡ start
    pub rest : (t.segment seg).size + start ≡ (s.segment seg).size + (s.segment seg).base
    pub sums :
        (w : Segment → ℕ) → Blind w → total w t.segment t.seg_list ≡ total w s.segment s.seg_list

  module _ (s : VMem) (fl : ℕ → List ℕ) (seg new start : ℕ) (hand : List ℕ) where
    abbrev before : ℕ
    before = sub64 start (s.segment seg).base

    -- The two segments, and the heap with them.
    abbrev front : Segment
    front = record { base = (s.segment seg).base; size = before; type = free }

    abbrev back : Segment
    back = record {
      base = start;
      size = sub64 (s.segment seg).size before;
      type = (s.segment seg).type;
    }

    abbrev heap : ℕ → Segment
    heap = put (put s.segment new front) seg back

    -- `cut_front`, with what `insert_before` gives for a list.
    abbrev cut_with : List ℕ → VMem
    cut_with l = freelist_insert_no_merge hz bits (record s { segment = heap; seg_list = l }) new

    abbrev fl' : ℕ → List ℕ
    fl' =
        put fl (size_to_index hz bits (heap new).size)
          (push_front (fl (size_to_index hz bits (heap new).size)) new)

    module _ (h : Held hz bits i popped size low high s fl seg (new ∷ hand))
        (after : (s.segment seg).base < start)
        (within : start < (s.segment seg).base + (s.segment seg).size) where
      room : (s.segment seg).base + (s.segment seg).size < 2 ^ 64
      room = ground (
        arith,
        Tiles-room s.segment s.base s.seg_list (s.base + s.size) seg h.tiles h.on,
        h.small,
        free-span (s.segment seg).type h.kind,
      )

      once : Once s.seg_list
      once = Pool-Once s (new ∷ hand) h.pool

      fresh : count new s.seg_list ≡ 0
      fresh = ground (arith, h.pool.pooled new, h.pool.fresh (page_of new))

      apart : new == seg ≡ false
      apart = ground (arith, h.on, fresh)

      hooked :
          (q : ℕ) → count q (hook_before seg new s.seg_list) ≡ bit (q == new) + count q s.seg_list
      hooked q = count-hook_before seg new q s.seg_list h.on

      heap-new : heap new ≡ front
      heap-new =
          put-other (put s.segment new front) seg new back apart
          ∙ put_self s.segment new new front (ground arith)

      heap-seg : heap seg ≡ back
      heap-seg = put_self (put s.segment new front) seg seg back (ground arith)

      before_lem : before + (s.segment seg).base ≡ start
      before_lem = omega (arith, after, within, room)

      back_lem : before + back.size ≡ (s.segment seg).size
      back_lem = omega (arith, before_lem, within, room)

      cut-Tiles :
          Tiles
            (cut_with (hook_before seg new s.seg_list)).segment
            s.base
            (hook_before seg new s.seg_list)
            (s.base + s.size)
      cut-Tiles =
          Tiles-same heap s.base (hook_before seg new s.seg_list) (s.base + s.size) new
            (record (heap new) { type = free }) (λ q. ground (arith, hooked q, once q, fresh)) refl
            refl (subst (λ g. g.size ≡ extent g) (sym heap-new) refl)
            (Tiles-hook s.segment (s.base + s.size) seg new front back refl
              (omega (arith, before_lem)) back_lem (omega (arith, before_lem, after))
              (omega (arith, back_lem, before_lem, within)) refl all all s.base s.seg_list h.on once
              fresh h.tiles)
        where
          all : {n : ℕ} → (if is_span (s.segment seg).type then 0 else n) ≡ n
          all = ground (arith, free-span (s.segment seg).type h.kind)

      cut-Files :
          Files
            (size_to_index hz bits)
            (cut_with (hook_before seg new s.seg_list)).segment
            fl'
            s.hash_tab
            (hook_before seg new s.seg_list)
            (seg ∷ [])
      cut-Files =
          Files-free (size_to_index hz bits) heap fl s.hash_tab (hook_before seg new s.seg_list)
            (seg ∷ []) new (record (heap new) { type = free })
            (push_front (fl (size_to_index hz bits (heap new).size)) new)
            (ground (arith, hooked new, fresh)) (ground (arith, apart)) refl
            (λ q. ap (count q) (push_front_lem (fl (size_to_index hz bits (heap new).size)) new))
            (Files-hook (size_to_index hz bits) heap fl s.hash_tab s.seg_list (seg ∷ []) seg new
              h.on fresh
              (Files-put (size_to_index hz bits) (put s.segment new front) fl s.hash_tab s.seg_list
                (seg ∷ []) seg back (λ q same. ground arith)
                (Files-put (size_to_index hz bits) s.segment fl s.hash_tab s.seg_list (seg ∷ []) new
                  front (λ q same. ground (arith, fresh, ap (λ k. count k s.seg_list) same))
                  h.files)))

      cut-seg : (cut_with (hook_before seg new s.seg_list)).segment seg ≡ back
      cut-seg =
          put-other heap new seg (record (heap new) { type = free }) (ground (arith, apart))
          ∙ heap-seg

      cut-Held :
          Held hz bits i popped size low high
            (cut_with (hook_before seg new s.seg_list))
            fl'
            seg
            hand
      cut-Held = record {
        tiles = cut-Tiles;
        small = h.small;
        files = cut-Files;
        pool = record {
          pooled = λ p. omega (arith, h.pool.pooled p, hooked p);
          fresh = h.pool.fresh;
          aligned = h.pool.aligned;
        };
        on = ground (arith, hooked seg, h.on);
        kind = ap (λ g. is_free g.type) cut-seg ∙ h.kind;
        lifts = λ j q. ground (
          arith,
          h.lifts j q,
          h.lifts (size_to_index hz bits (heap new).size) q,
          ap (count q) (push_front_lem (fl (size_to_index hz bits (heap new).size)) new),
          ap (count q) (push_front_lem (s.freelists (size_to_index hz bits (heap new).size)) new),
        );
      }

      cut-total :
          (w : Segment → ℕ)
          → Blind w
          → total w
              (cut_with (hook_before seg new s.seg_list)).segment
              (hook_before seg new s.seg_list)
            ≡ total w s.segment s.seg_list
      cut-total w blind = ground (
        arith,
        total-put w heap (hook_before seg new s.seg_list) new (record (heap new) { type = free })
            (ground (arith, hooked new, fresh)),
        total-hook w heap s.seg_list seg new h.on,
        total-put w (put s.segment new front) s.seg_list seg back (ground (arith, h.on, once seg)),
        ap w (put-other s.segment new seg front (ground (arith, apart))),
        total-put_off w s.segment s.seg_list new front fresh,
        blind (record (heap new) { type = free }) refl,
        blind back h.kind,
        blind (s.segment seg) h.kind,
      )

      pub cut_front-Cuts :
          Cuts s seg start hand (cut_front hz bits i popped size low high s seg new start)
      unfolding cut_front
      cut_front-Cuts =
          subst (λ l. Cuts s seg start hand (cut_with l))
            (sym (insert_before-hook_before hz seg new s.seg_list h.on))
            (record {
              fl = fl';
              held = cut-Held;
              same_base = refl;
              same_size = refl;
              same_quantum = refl;
              at = ap (λ g. g.base) cut-seg;
              rest = omega (arith, ap (λ g. g.size) cut-seg, back_lem, before_lem);
              sums = cut-total;
            })
