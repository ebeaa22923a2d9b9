-- ===== src/VMem/Coalesce.antt =====
-- `freelist_insert`: what the loop that joins a segment with its neighbours leaves.
use crescent.Common.{
  Option, some, none, if◌then◌else◌, ℕ, zero, suc, ◌+◌, ◌≡◌, ◌⊎◌, inl, inr, refl, sym, ap, ◌∙◌,
  subst, arith, List, none, some, Bool-cases, Option-cases, if◌then◌else◌,
}
use crescent.HzFront.{HzFront, HzBits, count}
use crescent.VMem.Segments.{free, Segment, VMem, is_free, prev_of, next_of}
use crescent.VMem.Freelists.{
  keep_if, size_to_index, join, joins, joined_prev, joined_next, freelist_insert_no_merge, coalesce,
}
use crescent.VMem.Tiles.{Tiles-same, put-other}
use crescent.VMem.Hooks.{Once, prev_of-next_of}
use crescent.VMem.Files.{Files-free}
use crescent.VMem.Pool.{Pool-Once}
use crescent.VMem.Totals.{total, total-put}
use crescent.VMem.Arena.{Meets, Arena, Pending, Keeps, Blind}
use crescent.VMem.Join.{neither, join-Pending, join-Keeps, join-total}

module _ (hz : HzFront) (bits : HzBits) where
  open hz use {push_front, push_front_lem}

  -- `t` has `seg` filed, which from then on is a part of a free segment.
  pub record Inserts (s t : VMem) (seg : ℕ) (hand out : List ℕ) : Type 0 where
    pub arena : Arena hz bits t hand out
    pub keeps : Keeps s t seg
    pub drops :
        (w : Segment → ℕ)
        → Blind w
        → total w t.segment t.seg_list + w (s.segment seg) ≡ total w s.segment s.seg_list

  module _ (s : VMem) (seg : ℕ) (hand out : List ℕ) (v : Pending hz bits s seg hand out) where
    once : Once s.seg_list
    once = Pool-Once s hand v.arena.pool

    insert-Inserts : Inserts s (freelist_insert_no_merge hz bits s seg) seg hand out
    insert-Inserts = record {
      arena = record {
        tiles =
            Tiles-same s.segment s.base s.seg_list (s.base + s.size) seg
              (record (s.segment seg) { type = free }) once refl refl (ground (arith, v.kind))
              v.arena.tiles;
        small = v.arena.small;
        files =
            Files-free (size_to_index hz bits) s.segment s.freelists s.hash_tab s.seg_list out seg
              (record (s.segment seg) { type = free })
              (push_front (s.freelists (size_to_index hz bits (s.segment seg).size)) seg)
              (omega (arith, v.on, once seg)) v.apart refl
              (λ q.
                ap (count q)
                  (push_front_lem (s.freelists (size_to_index hz bits (s.segment seg).size)) seg))
              v.arena.files;
        pool = record {
          pooled = v.arena.pool.pooled;
          fresh = v.arena.pool.fresh;
          aligned = v.arena.pool.aligned;
        };
      };
      keeps = record {
        base = refl;
        size = refl;
        quantum = refl;
        kept = λ q taken ne.
            (put-other s.segment seg q (record (s.segment seg) { type = free }) ne, refl);
      };
      drops = λ w blind. omega (
        arith,
        total-put w s.segment s.seg_list seg (record (s.segment seg) { type = free })
            (omega (arith, v.on, once seg)),
        blind (record (s.segment seg) { type = free }) refl,
      );
    }

  pub joined_prev-cases :
      (s : VMem) (seg : ℕ)
      → (joined_prev hz bits s seg ≡ none)
        ⊎ ((p : ℕ) × (joined_prev hz bits s seg ≡ some p) × Meets s p p seg seg)
  unfolding joined_prev
  joined_prev-cases s seg = elim (Option-cases (prev_of seg s.seg_list)) [
    | inl e ↦ inl (ap test e)
    | inr (p, e) ↦ elim (Bool-cases (joins hz bits s p p seg)) [
      | inl j ↦ inr (
        p,
        ap test e ∙ ap (λ b. if b then some p else none) j,
        record { next_to = e; is_listed = ground arith; which = inl (refl, refl) },
      )
      | inr j ↦ inl (ap test e ∙ ap (λ b. if b then some p else none) j)
    ]
  ]
    where
      test : Option ℕ → Option ℕ
      test = keep_if (λ prev. joins hz bits s prev prev seg)

  pub joined_next-cases :
      (s : VMem) (seg : ℕ)
      → Once s.seg_list
      → (joined_next hz bits s seg ≡ none)
        ⊎ ((q : ℕ) × (joined_next hz bits s seg ≡ some q) × Meets s q seg q seg)
  unfolding joined_next
  joined_next-cases s seg single = elim (Option-cases (next_of seg s.seg_list)) [
    | inl e ↦ inl (ap test e)
    | inr (q, e) ↦ elim (Bool-cases (joins hz bits s q seg q)) [
      | inl j ↦ inr (
        q,
        ap test e ∙ ap (λ b. if b then some q else none) j,
        record {
          next_to = prev_of-next_of seg q s.seg_list single e;
          is_listed = ground arith;
          which = inr (refl, refl);
        },
      )
      | inr j ↦ inl (ap test e ∙ ap (λ b. if b then some q else none) j)
    ]
  ]
    where
      test : Option ℕ → Option ℕ
      test = keep_if (λ next. joins hz bits s next seg next)

  -- Filing after one join.
  module _ (s u : VMem) (listed p q seg : ℕ) (hand out : List ℕ) (m : Meets s listed p q seg)
      (v : Pending hz bits s seg hand out)
      (rest : Inserts (join hz bits s listed p q) u p hand out) where
    join-Inserts : Inserts s u seg hand out
    join-Inserts =
        let first = join-Keeps hz bits s listed p q seg hand out m v in
        record {
          arena = rest.arena;
          keeps = record {
            base = rest.keeps.base ∙ first.base;
            size = rest.keeps.size ∙ first.size;
            quantum = rest.keeps.quantum ∙ first.quantum;
            kept = λ r taken ne.
                let (same, on) = first.kept r taken ne in
                let (off_p, off_q) = neither hz bits s listed p q seg hand out m v r taken ne in
                let (same', on') =
                  rest.keeps.kept r (ap (λ g. is_free g.type) same ∙ taken) off_p in
                (same' ∙ same, on' ∙ on);
          };
          drops = λ w blind.
              omega (
                arith,
                rest.drops w blind,
                join-total hz bits s listed p q seg hand out m v w blind,
              );
        }

  pub coalesce-none :
      (n : ℕ) (s : VMem) (seg : ℕ)
      → joined_prev hz bits s seg ≡ none
      → joined_next hz bits s seg ≡ none
      → coalesce hz bits n s seg ≡ freelist_insert_no_merge hz bits s seg
  unfolding coalesce
  coalesce-none zero s seg e f = refl
  coalesce-none (suc n) s seg e f = rw (e, f) refl

  pub coalesce-prev :
      (n : ℕ) (s : VMem) (seg p : ℕ)
      → joined_prev hz bits s seg ≡ some p
      → coalesce hz bits (suc n) s seg ≡ coalesce hz bits n (join hz bits s p p seg) p
  unfolding coalesce
  coalesce-prev n s seg p e = rw e refl

  pub coalesce-next :
      (n : ℕ) (s : VMem) (seg q : ℕ)
      → joined_prev hz bits s seg ≡ none
      → joined_next hz bits s seg ≡ some q
      → coalesce hz bits (suc n) s seg ≡ coalesce hz bits n (join hz bits s q seg q) seg
  unfolding coalesce
  coalesce-next n s seg q e f = rw (e, f) refl

  pub coalesce-Inserts :
      (n : ℕ) (s : VMem) (seg : ℕ) (hand out : List ℕ)
      → Pending hz bits s seg hand out
      → Inserts s (coalesce hz bits n s seg) seg hand out
  unfolding coalesce
  coalesce-Inserts zero s seg hand out v = insert-Inserts s seg hand out v
  coalesce-Inserts (suc n) s seg hand out v = elim (joined_prev-cases s seg) [
    | inr (p, e, m) ↦
        subst (λ t. Inserts s t seg hand out) (sym (coalesce-prev n s seg p e))
          (join-Inserts s (coalesce hz bits n (join hz bits s p p seg) p) p p seg seg hand out m v (
            coalesce-Inserts n (join hz bits s p p seg) p hand out
              (join-Pending hz bits s p p seg seg hand out m v)))
    | inl e ↦ elim (joined_next-cases s seg (Pool-Once s hand v.arena.pool)) [
      | inl f ↦
          subst (λ t. Inserts s t seg hand out) (sym (coalesce-none (suc n) s seg e f))
            (insert-Inserts s seg hand out v)
      | inr (q, f, m) ↦
          subst (λ t. Inserts s t seg hand out) (sym (coalesce-next n s seg q e f))
            (join-Inserts s (coalesce hz bits n (join hz bits s q seg q) seg) q seg q seg hand out m
              v
              (coalesce-Inserts n (join hz bits s q seg q) seg hand out
                (join-Pending hz bits s q seg q seg hand out m v)))
    ]
  ]
