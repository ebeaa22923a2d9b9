-- ===== src/VMem/Free.antt =====
-- `xfree`: the segment that is used at the address is free afterwards.
use crescent.Common.{
  ℕ, ◌+◌, ◌≤◌, ◌≡◌, ◌≢◌, ◌⊎◌, inl, inr, refl, sym, ap, ◌∙◌, subst, arith, true, false, List, [],
  ◌∷◌, none, some, ◌==◌, Bool-cases, Option-cases,
}
use crescent.HzFront.{HzFront, HzBits, count}
use crescent.VMem.{
  VMem, Segment, used, is_used, is_span, put, bucket, size_to_index, find_base, freelist_insert,
  xfree, align_up,
}
use crescent.VMem.Files.{Files-unhash}
use crescent.VMem.Pool.{Pool-Once}
use crescent.VMem.Totals.{total-some, total-le}
use crescent.VMem.Tiles.{Tiles-apart, Tiles-room}
use crescent.VMem.Arena.{Arena, Pending}
use crescent.VMem.Use.{
  Used, Used-segment, Returns, kind-used, at_address, at_address-both, used_at, of_range,
  of_range-Blind,
}
use crescent.VMem.Coalesce.{coalesce-Inserts}

module _ (f : ℕ → Segment) (key : ℕ) where
  find_base-found :
      (l : List ℕ) (q : ℕ) → find_base f key l ≡ some q → (1 ≤ count q l) × ((f q).base ≡ key)
  find_base-found [] q e = cc
  find_base-found (x ∷ l) q e = elim (Bool-cases ((f x).base == key)) [
    | inl here ↦
        let same : x ≡ q = ground arith in
        (ground arith, ap (λ k. (f k).base) (sym same) ∙ ground arith)
    | inr later ↦ let (on, at) = find_base-found l q (ground arith) in (omega (arith, on), at)
  ]

  find_base-none :
      (l : List ℕ)
      → find_base f key l ≡ none
      → (p : ℕ) → 1 ≤ count p l
      → ((f p).base == key) ≡ false
  find_base-none [] e p on = absurd (omega arith)
  find_base-none (x ∷ l) e p on = elim (Bool-cases (p == x)) [
    | inl here ↦
        let same : p ≡ x = ground arith in
        let first : (f x).base == key ≡ false = ground arith in
        ap (λ k. (f k).base == key) same ∙ first
    | inr later ↦ find_base-none l (ground arith) p (ground arith)
  ]

module _ (hz : HzFront) (bits : HzBits) where
  open hz use {remove, count-remove}

  module _ (s : VMem) (v : Arena hz bits s [] []) (ptr : ℕ) where
    -- The segments in the bucket of an address are used, and those used there are in it.
    hashed-on :
        (q : ℕ)
        → 1 ≤ count q (s.hash_tab (bucket ptr))
        → (1 ≤ count q s.seg_list) × ((s.segment q).type ≡ used)
    hashed-on q on = (
      ground (arith, v.files.hashed (bucket ptr) q),
      kind-used (s.segment q).type (ground (arith, v.files.hashed (bucket ptr) q)),
    )

    on-hashed : (q n : ℕ) → Used s ptr n q → 1 ≤ count q (s.hash_tab (bucket ptr))
    on-hashed q n u =
        ground (arith, v.files.hashed (bucket ptr) q, u.on, ap is_used u.type, ap bucket u.at)

    module _ (seg : ℕ) (found : find_base s.segment ptr (s.hash_tab (bucket ptr)) ≡ some seg) where
      abbrev n : ℕ
      n = (s.segment seg).size

      here : Used s ptr n seg
      here = record {
        on = (hashed-on seg (find_base-found s.segment ptr _ seg found).0).0;
        type = (hashed-on seg (find_base-found s.segment ptr _ seg found).0).1;
        at = (find_base-found s.segment ptr _ seg found).1;
        room = refl;
      }

      abbrev t : VMem
      t = record s { hash_tab = put s.hash_tab (bucket ptr) (remove (s.hash_tab (bucket ptr)) seg) }

      pending : Pending hz bits t seg [] []
      pending = record {
        arena = record {
          tiles = v.tiles;
          small = v.small;
          files =
              Files-unhash (size_to_index hz bits) s.segment s.freelists s.hash_tab s.seg_list []
                (bucket ptr) seg (remove (s.hash_tab (bucket ptr)) seg) (Pool-Once s [] v.pool)
                (find_base-found s.segment ptr _ seg found).0
                (λ q.
                  count-remove (s.hash_tab (bucket ptr)) seg q
                    (find_base-found s.segment ptr _ seg found).0)
                v.files;
          pool = record { pooled = v.pool.pooled; fresh = v.pool.fresh; aligned = v.pool.aligned };
        };
        on = here.on;
        kind = ap is_span here.type;
        apart = refl;
        taken = λ q on. absurd (omega (arith, on));
      }

      freed : Returns hz bits s (freelist_insert hz bits t seg) ptr n
      unfolding freelist_insert
      freed =
          let i = coalesce-Inserts hz bits _ t seg [] [] pending in
          record {
            arena = i.arena;
            same = (i.keeps.base, i.keeps.size, i.keeps.quantum);
            less = λ a m. ground (
              arith,
              i.drops (of_range a m) (of_range-Blind a m),
              ap (of_range a m) (Used-segment s ptr n seg here),
            );
          }

      module _ (size : ℕ) where
        xfree-some :
            n == align_up size s.quantum ≡ true
            → xfree hz bits s ptr size ≡ some (freelist_insert hz bits t seg)
        unfolding xfree
        xfree-some e = rw (found, e) refl

        xfree-fails : n == align_up size s.quantum ≡ false → xfree hz bits s ptr size ≡ none
        unfolding xfree
        xfree-fails e = rw (found, e) refl

    xfree-none :
        (size : ℕ)
        → find_base s.segment ptr (s.hash_tab (bucket ptr)) ≡ none
        → xfree hz bits s ptr size ≡ some s
    unfolding xfree
    xfree-none size e = rw e refl

    nothing : find_base s.segment ptr (s.hash_tab (bucket ptr)) ≡ none → used_at s ptr ≡ 0
    nothing e = elim (Bool-cases (used_at s ptr == 0)) [
      | inl z ↦ ground arith
      | inr nz ↦
          let (p, on, weighs) = total-some (at_address ptr) s.segment s.seg_list (ground arith) in
          let (kind, at) = at_address-both (s.segment p) ptr weighs in
          let is =
            on-hashed p (s.segment p).size
              (record { on = on; type = kind; at = at; room = refl }) in
          let off = find_base-none s.segment ptr (s.hash_tab (bucket ptr)) e p is in
          absurd (ground (arith, at, off))
    ]

    -- What `xfree` may do: nothing is used at the address, or a used segment there is freed, or an
    -- assertion on its size fails.
    abbrev pub Freeing : ℕ → Type 0
    Freeing size =
        ((xfree hz bits s ptr size ≡ some s) × (used_at s ptr ≡ 0))
        ⊎ ((p : ℕ) × (n : ℕ) × Used s ptr n p
            × (((n ≡ align_up size s.quantum)
                  × ((t : VMem) × (xfree hz bits s ptr size ≡ some t) × Returns hz bits s t ptr n))
                ⊎ ((n ≢ align_up size s.quantum) × (xfree hz bits s ptr size ≡ none))))

    -- `xfree` leaves an arena alone if no segment is used at the address. Else the segment there is
    -- used no more, the other used segments are as they were, and the arena stays in order, if the
    -- size is the allocated one once it is rounded; with another size an assertion fails.
    pub xfree-Freeing : (size : ℕ) → Freeing size
    xfree-Freeing size = elim (Option-cases (find_base s.segment ptr (s.hash_tab (bucket ptr)))) [
      | inl e ↦ inl (xfree-none size e, nothing e)
      | inr (seg, found) ↦ inr (
        seg,
        (s.segment seg).size,
        here seg found,
        elim (Bool-cases ((s.segment seg).size == align_up size s.quantum)) [
          | inl e ↦ inl (
            ground arith,
            (
              freelist_insert hz bits (t seg found) seg,
              xfree-some seg found size e,
              freed seg found,
            ),
          )
          | inr e ↦ inr (λ same. absurd (ground arith), xfree-fails seg found size e)
        ],
      )
    ]

    -- Two segments are not used at one address.
    Used-unique : (p q n m : ℕ) → Used s ptr n p → Used s ptr m q → n ≡ m
    Used-unique p q n m a b = elim (Bool-cases (p == q)) [
      | inl e ↦
          let same : p ≡ q = ground arith in sym a.room ∙ ap (λ k. (s.segment k).size) same ∙ b.room
      | inr e ↦
          let apart =
            Tiles-apart s.segment s.base s.seg_list (s.base + s.size) p q v.tiles a.on b.on e in
          absurd (
            ground (
              arith,
              apart,
              (Tiles-room s.segment s.base s.seg_list (s.base + s.size) p v.tiles a.on).2,
              (Tiles-room s.segment s.base s.seg_list (s.base + s.size) q v.tiles b.on).2,
              a.type,
              b.type,
              a.at,
              b.at,
            ))
    ]

    -- A used segment is freed with its size.
    pub xfree-Used :
        (size p : ℕ)
        → Used s ptr (align_up size s.quantum) p
        → (t : VMem) × (xfree hz bits s ptr size ≡ some t)
          × Returns hz bits s t ptr (align_up size s.quantum)
    xfree-Used size p u = elim (xfree-Freeing size) [
      | inl (e, off) ↦
          absurd (
            ground
              (arith, off, total-le (at_address ptr) s.segment s.seg_list p u.on, u.type, u.at))
      | inr (q, n, at, inl (same, f)) ↦
          subst (λ m. (t : VMem) × (xfree hz bits s ptr size ≡ some t) × Returns hz bits s t ptr m)
            same f
      | inr (q, n, at, inr (ne, e)) ↦ absurd (ne (Used-unique q p n (align_up size s.quantum) at u))
    ]
