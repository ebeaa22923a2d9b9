-- ===== src/VMem/Join.antt =====
-- What joining two neighbours does to an arena.
use crescent.Common.{
  ℕ, ◌+◌, ◌≤◌, ◌≡◌, inl, inr, refl, sym, ap, ◌∙◌, subst, arith, Bool, true, false, List, ◌∷◌, ◌==◌,
  add64, Bool-cases,
}
use crescent.HzFront.{HzFront, HzBits, count}
use crescent.VMem.Segments.{Segment, VMem, is_free, is_span, put, unhook}
use crescent.VMem.Freelists.{size_to_index, join}
use crescent.VMem.Tiles.{Tiles, Tiles-join, Tiles-room, Tiles-next, put-other}
use crescent.VMem.Hooks.{Once, count-unhook, prev_of-on, prev_of-apart}
use crescent.VMem.Files.{Files, Files-unfree, Files-swap, Files-unhook, Files-put}
use crescent.VMem.Pool.{Pool, Pool-Once}
use crescent.VMem.Totals.{total, total-put, total-unhook}
use crescent.VMem.Arena.{Meets, Pending, Keeps, Blind, free-span}

module _ (hz : HzFront) (bits : HzBits) where
  open hz use {remove, count-remove}

  module _ (s : VMem) (listed p q seg : ℕ) (hand out : List ℕ) where
    abbrev joined : Segment
    joined = record (s.segment p) { size = add64 (s.segment p).size (s.segment q).size }

    abbrev i : ℕ
    i = size_to_index hz bits (s.segment listed).size

    abbrev Moved : List ℕ → Type 0
    Moved o =
        Files (size_to_index hz bits) s.segment (put s.freelists i (remove (s.freelists i) listed))
          s.hash_tab s.seg_list o

    module _ (m : Meets s listed p q seg) (v : Pending hz bits s seg hand out) where
      both_on : (1 ≤ count p s.seg_list) × (1 ≤ count q s.seg_list)
      both_on = prev_of-on q p s.seg_list m.next_to

      once : Once s.seg_list
      once = Pool-Once s hand v.arena.pool

      spans : (is_span (s.segment p).type ≡ false) × (is_span (s.segment q).type ≡ false)
      spans = elim m.which [
        | inl (l, k) ↦ (moved p l, ap (λ r. is_span (s.segment r).type) (sym k) ∙ v.kind)
        | inr (l, k) ↦ (ap (λ r. is_span (s.segment r).type) (sym k) ∙ v.kind, moved q l)
      ]
        where
          moved : (r : ℕ) → listed ≡ r → is_span (s.segment r).type ≡ false
          moved r l =
              ap (λ r. is_span (s.segment r).type) (sym l)
              ∙ free-span (s.segment listed).type m.is_listed

      no_wrap : joined.size ≡ (s.segment p).size + (s.segment q).size
      no_wrap =
          let arena = v.arena in
          let room =
            Tiles-room s.segment s.base s.seg_list (s.base + s.size) q arena.tiles both_on.1 in
          let next =
            Tiles-next s.segment s.base s.seg_list (s.base + s.size) p q arena.tiles m.next_to in
          ground (arith, room.1, next, arena.small, spans.0, spans.1)

      join-Tiles : Tiles (put s.segment p joined) s.base (unhook q s.seg_list) (s.base + s.size)
      join-Tiles =
          Tiles-join s.segment (s.base + s.size) p q joined refl no_wrap
            (ground (arith, no_wrap, spans.0, spans.1)) s.base s.seg_list m.next_to once
            v.arena.tiles

      differ : p == q ≡ false
      differ = prev_of-apart q p s.seg_list once m.next_to

      -- `listed` is another segment than `seg`, and is not moved.
      other : (listed == seg ≡ false) × (1 ≤ count listed s.seg_list) × (count p out ≡ 0)
      other = elim m.which [
        | inl (l, k) ↦ (
          ground (arith, differ),
          ground (arith, both_on),
          ground (arith, v.taken listed, m.is_listed),
        )
        | inr (l, k) ↦ (ground (arith, differ), ground (arith, both_on), ground (arith, v.apart))
      ]

      listed_on : 1 ≤ count listed (s.freelists i)
      listed_on = ground (arith, v.arena.files.freed i listed, other, m.is_listed, v.taken listed)

      unfiled : Moved (listed ∷ seg ∷ out)
      unfiled =
          Files-unfree (size_to_index hz bits) s.segment s.freelists s.hash_tab s.seg_list
            (seg ∷ out) i listed (remove (s.freelists i) listed) once listed_on
            (λ r. count-remove (s.freelists i) listed r listed_on) v.arena.files

      unfreed : Moved (q ∷ p ∷ out)
      unfreed = elim m.which [
        | inl (l, k) ↦
            subst (λ r. Moved (r ∷ p ∷ out)) k
              (subst (λ r. Moved (seg ∷ r ∷ out)) l
                (Files-swap (size_to_index hz bits) s.segment
                  (put s.freelists i (remove (s.freelists i) listed)) s.hash_tab s.seg_list out
                  listed seg unfiled))
        | inr (l, k) ↦
            subst (λ r. Moved (r ∷ p ∷ out)) l (subst (λ r. Moved (listed ∷ r ∷ out)) k unfiled)
      ]

      join-Files :
          Files
            (size_to_index hz bits)
            (put s.segment p joined)
            (put s.freelists i (remove (s.freelists i) listed))
            s.hash_tab
            (unhook q s.seg_list)
            (p ∷ out)
      join-Files =
          Files-put (size_to_index hz bits) s.segment
            (put s.freelists i (remove (s.freelists i) listed)) s.hash_tab (unhook q s.seg_list)
            (p ∷ out) p joined (λ r same. ground arith)
            (Files-unhook (size_to_index hz bits) s.segment
              (put s.freelists i (remove (s.freelists i) listed)) s.hash_tab s.seg_list (p ∷ out) q
              once both_on.1 unfreed)

      join-Pool : Pool (join hz bits s listed p q) hand
      unfolding join
      join-Pool = record {
        pooled = λ r. omega (arith, v.arena.pool.pooled r, count-unhook q r s.seg_list both_on.1);
        fresh = v.arena.pool.fresh;
        aligned = v.arena.pool.aligned;
      }

      pub join-Pending : Pending hz bits (join hz bits s listed p q) p hand out
      unfolding join
      join-Pending = record {
        arena = record {
          tiles = join-Tiles;
          small = v.arena.small;
          files = join-Files;
          pool = join-Pool;
        };
        on = ground (arith, both_on.0, count-unhook q p s.seg_list both_on.1, differ);
        kind = ground (arith, spans.0);
        apart = other.2;
        taken = λ r on. ground (arith, v.taken r on, other.2);
      }

      module _ (w : Segment → ℕ) (blind : Blind w) where
        pair : w (s.segment p) + w (s.segment q) ≡ w (s.segment seg)
        pair =
            let none_listed = blind (s.segment listed) m.is_listed in
            elim m.which [
              | inl (l, k) ↦
                  omega
                    (arith, ap (λ r. w (s.segment r)) l, ap (λ r. w (s.segment r)) k, none_listed)
              | inr (l, k) ↦
                  omega
                    (arith, ap (λ r. w (s.segment r)) l, ap (λ r. w (s.segment r)) k, none_listed)
            ]

        once_left : count p (unhook q s.seg_list) ≡ 1
        once_left = ground (arith, both_on.0, count-unhook q p s.seg_list both_on.1, differ, once p)

        -- A sum changes by what the segment in hand changes.
        pub join-total :
            let t = join hz bits s listed p q in
            total w t.segment t.seg_list + w (s.segment seg)
            ≡ total w s.segment s.seg_list + w (t.segment p)
        unfolding join
        join-total = ground (
          arith,
          total-unhook w s.segment s.seg_list q both_on.1,
          total-put w s.segment (unhook q s.seg_list) p joined once_left,
          pair,
        )

      pub neither :
          (r : ℕ)
          → is_free (s.segment r).type ≡ false
          → r == seg ≡ false
          → (r == p ≡ false) × (r == q ≡ false)
      neither r taken ne =
          let off = other_free r taken in
          elim m.which [ inl (l, k) ↦ ground (arith, off) | inr (l, k) ↦ ground (arith, off) ]
        where
          clash : {b : Bool} → b ≡ true → b ≡ false → ⊥
          clash p q = ground arith

          other_free : (r : ℕ) → is_free (s.segment r).type ≡ false → r == listed ≡ false
          other_free r taken = elim (Bool-cases (r == listed)) [
            | inr e ↦ e
            | inl e ↦
                let same : r ≡ listed = ground arith in
                absurd (clash (ap (λ k. is_free (s.segment k).type) same ∙ m.is_listed) taken)
          ]

      pub join-Keeps : Keeps s (join hz bits s listed p q) seg
      unfolding join
      join-Keeps = record {
        base = refl;
        size = refl;
        quantum = refl;
        kept = λ r taken ne.
            let (off_p, off_q) = neither r taken ne in
            (
              put-other s.segment p r joined off_p,
              ground (arith, count-unhook q r s.seg_list both_on.1, off_q),
            );
      }
