-- ===== src/VMem/Search.antt =====
-- `xalloc`: the walk over the freelists finds room, or leaves the arena as it was.
use crescent.Common.{
  ℕ, zero, suc, ◌-◌, ◌≤◌, ◌%◌, ◌^◌, ◌≡◌, inl, inr, refl, sym, ap, ◌∙◌, subst, arith, true, false,
  List, [], ◌∷◌, ◌==◌, leb, sub64, if◌then◌else◌, Bool-cases,
}
use crescent.HzFront.{HzFront, HzBits, count}
use crescent.VMem.{
  VMem, upper_bound, has_bounds, put, size_to_index, walk, try_list, search, xalloc, on_zero,
  seg_fit, align_up, freelist_count,
}
use crescent.VMem.Files.{in_freelist, Files-unfree, Files-counts}
use crescent.VMem.Pool.{Pool-Once}
use crescent.VMem.Arena.{Arena, Leaves}
use crescent.VMem.Held.{Held}
use crescent.VMem.Fitting.{seg_fit-Fitted}
use crescent.VMem.Given.{Fitted, Fitted-after}

module _ (hz : HzFront) (bits : HzBits) where
  open hz use {push_front, push_front_lem, remove, count-remove}

  abbrev pub index : ℕ → ℕ
  index = size_to_index hz bits

  stays : (s : VMem) → Arena hz bits s [] [] → Leaves hz bits s s
  stays s v = record { arena = v; same = (refl, refl, refl); segments = refl; list = refl }

  -- The segments on a freelist are free segments of the arena, of the list's size.
  module _ (s : VMem) (v : Arena hz bits s [] []) (i q : ℕ) where
    pub listed-home : 1 ≤ count q (s.freelists i) → in_freelist index (s.segment q) i ≡ true
    listed-home on = ground (arith, v.files.freed i q)

    pub listed-on : 1 ≤ count q (s.freelists i) → 1 ≤ count q s.seg_list
    listed-on on = ground (arith, v.files.freed i q)

    pub on-listed :
        in_freelist index (s.segment q) i ≡ true
        → 1 ≤ count q s.seg_list
        → 1 ≤ count q (s.freelists i)
    on-listed home on = ground (arith, v.files.freed i q)

  left-listed :
      (s t : VMem)
      → Arena hz bits s [] []
      → (i q : ℕ) → Leaves hz bits s t
      → 1 ≤ count q (s.freelists i)
      → 1 ≤ count q (t.freelists i)
  left-listed s t v i q left on =
      on-listed t left.arena i q
        (ap (λ f. in_freelist index (f q) i) left.segments ∙ listed-home s v i q on)
        (ground (arith, ap (count q) left.list, listed-on s v i q on))

  -- A freelist with the same segments, in any order.
  pub relist-Arena :
      (s : VMem)
      → Arena hz bits s [] []
      → (i : ℕ) (l : List ℕ) → ((q : ℕ) → count q l ≡ count q (s.freelists i))
      → Arena hz bits (record s { freelists = put s.freelists i l }) [] []
  relist-Arena s v i l same = record {
    tiles = v.tiles;
    small = v.small;
    files =
        Files-counts index s.segment s.freelists s.hash_tab s.seg_list [] (put s.freelists i l)
          (λ j q. ground (arith, same q)) v.files;
    pool = record { pooled = v.pool.pooled; fresh = v.pool.fresh; aligned = v.pool.aligned };
  }

  module _ (size low high : ℕ) (some_room : 1 ≤ size) where
    -- An attempt and, if it fails, what follows.
    on_zero-Fitted :
        (s : VMem) (r : VMem × ℕ) (f : VMem → VMem × ℕ)
        → 1 ≤ s.base
        → Fitted hz bits size low high s r
        → ((t : VMem) → Leaves hz bits s t → Fitted hz bits size low high t (f t))
        → Fitted hz bits size low high s (on_zero r f)
    on_zero-Fitted s (t, zero) f positive (inl (none_found, l)) next =
        Fitted-after hz bits size low high s t (f t) l (next t l)
    on_zero-Fitted s (t, zero) f positive (inr (g, lower, upper, inside)) next =
        absurd (omega (arith, positive, inside))
    on_zero-Fitted s (t, suc addr) f positive fitted next = fitted

    module _ (s : VMem) (v : Arena hz bits s [] []) (i seg : ℕ) where
      pub popped-Held :
          (rest : List ℕ)
          → s.freelists i ≡ seg ∷ rest
          → Held hz bits i true size low high
              (record s { freelists = put s.freelists i rest })
              (put s.freelists i rest)
              seg
              []
      popped-Held rest e = record {
        tiles = v.tiles;
        small = v.small;
        files =
            Files-unfree index s.segment s.freelists s.hash_tab s.seg_list [] i seg rest
              (Pool-Once s [] v.pool) (ground (arith, ap (count seg) e)) (λ q. ap (count q) e)
              v.files;
        pool = record { pooled = v.pool.pooled; fresh = v.pool.fresh; aligned = v.pool.aligned };
        on = listed-on s v i seg (ground (arith, ap (count seg) e));
        kind = ground (arith, listed-home s v i seg (ground (arith, ap (count seg) e)));
        lifts = λ j q. omega arith;
      }

      pub listed-Held :
          1 ≤ count seg (s.freelists i)
          → Held hz bits i false size low high s
              (put s.freelists i (remove (s.freelists i) seg))
              seg
              []
      listed-Held on = record {
        tiles = v.tiles;
        small = v.small;
        files =
            Files-unfree index s.segment s.freelists s.hash_tab s.seg_list [] i seg
              (remove (s.freelists i) seg) (Pool-Once s [] v.pool) on
              (λ q. count-remove (s.freelists i) seg q on) v.files;
        pool = v.pool;
        on = listed-on s v i seg on;
        kind = ground (arith, listed-home s v i seg on);
        lifts = λ j q. ground (arith, count-remove (s.freelists i) seg q on);
      }

    walk-Fitted :
        (i : ℕ) (s : VMem) (l : List ℕ)
        → 1 ≤ s.base
        → Arena hz bits s [] []
        → ((q : ℕ) → 1 ≤ count q l → 1 ≤ count q (s.freelists i))
        → Fitted hz bits size low high s (walk hz bits size low high i s l)
    unfolding walk
    walk-Fitted i s [] positive v on = inl (refl, stays s v)
    walk-Fitted i s (seg ∷ l) positive v on =
        on_zero-Fitted s _ (λ t. walk hz bits size low high i t l) positive here
          (λ t left.
            walk-Fitted i t l (omega (arith, positive, left.same.0)) left.arena
              (λ q m. left-listed s t v i q left (on q (omega (arith, m)))))
      where
        here : Fitted hz bits size low high s (
            if leb size (s.segment seg).size
            then seg_fit hz bits i false size low high s seg
            else (s, 0))
        here = elim (Bool-cases (leb size (s.segment seg).size)) [
          | inl e ↦ rw e (
              seg_fit-Fitted hz bits i false size low high s
                (put s.freelists i (remove (s.freelists i) seg)) seg
                (listed-Held s v i seg (on seg (ground arith)))
                (listed-home s v i seg (on seg (ground arith))) some_room)
          | inr e ↦ rw e (inl (refl, stays s v))
        ]

    -- What is said of a state says the same of one with other freelists.
    relist-Fitted :
        (s : VMem) (fl : ℕ → List ℕ) (r : VMem × ℕ)
        → Fitted hz bits size low high (record s { freelists = fl }) r
        → Fitted hz bits size low high s r
    relist-Fitted s fl (t, addr) (inl (none_found, l)) = inl (
      none_found,
      record { arena = l.arena; same = l.same; segments = l.segments; list = l.list },
    )
    relist-Fitted s fl (t, addr) (inr (g, lower, upper, inside)) =
        inr (record { arena = g.arena; same = g.same; sums = g.sums }, lower, upper, inside)

    try_list-Fitted :
        (i : ℕ) (s : VMem) (l : List ℕ)
        → 1 ≤ s.base
        → Arena hz bits s [] []
        → s.freelists i ≡ l
        → Fitted hz bits size low high s (try_list hz bits size low high true i s l)
    unfolding try_list
    try_list-Fitted i s [] positive v e = inl (refl, stays s v)
    try_list-Fitted i s (seg ∷ rest) positive v e =
        elim (Bool-cases (leb size (s.segment seg).size)) [
          | inl big ↦ rw big (
              relist-Fitted s (put s.freelists i rest) _ (
                seg_fit-Fitted hz bits i true size low high _ (put s.freelists i rest) seg
                  (popped-Held s v i seg rest e)
                  (listed-home s v i seg (ground (arith, ap (count seg) e))) some_room))
          | inr small ↦ rw small (
              relist-Fitted s (put s.freelists i (push_front rest seg)) _ (
                walk-Fitted i _ (push_front rest seg) positive
                  (relist-Arena s v i (push_front rest seg)
                    (λ q. ap (count q) (push_front_lem rest seg) ∙ ap (count q) (sym e)))
                  (λ q on. ground (arith, on))))
        ]

    search-Fitted :
        (n i : ℕ) (s : VMem)
        → 1 ≤ s.base
        → Arena hz bits s [] []
        → Fitted hz bits size low high s (search hz bits size low high true n i s)
    unfolding search
    search-Fitted zero i s positive v = inl (refl, stays s v)
    search-Fitted (suc n) i s positive v =
        on_zero-Fitted s _ (search hz bits size low high true n (suc i)) positive
          (try_list-Fitted i s (s.freelists i) positive v refl)
          (λ t left. search-Fitted n (suc i) t (omega (arith, positive, left.same.0)) left.arena)

  -- The bounds are never both 0, as the upper one is set first.
  bounded : (low limit size : ℕ) → has_bounds low (upper_bound low limit size) ≡ true
  bounded low limit size = ground arith

  index-zero : index 0 ≡ 2 ^ 32 - 1
  unfolding size_to_index
  index-zero = ap (λ c. sub64 (sub64 freelist_count c) 1 % 2 ^ 32) bits.countl_zero_zero

  module _ (s : VMem) (v : Arena hz bits s [] []) (positive : 1 ≤ s.base)
      (wanted low limit : ℕ) where
    abbrev size : ℕ
    size = align_up wanted s.quantum

    abbrev upper : ℕ
    upper = upper_bound low limit size

    pub xalloc-search :
        xalloc hz bits s wanted low limit
        ≡ search hz bits size low upper true (freelist_count - index size) (index size) s
    unfolding xalloc
    xalloc-search = rw (bounded low limit size) refl

    -- Nothing is found for 0 bytes: the index is that of no list.
    search-zero :
        size ≡ 0
        → search hz bits size low upper true (freelist_count - index size) (index size) s ≡ (s, 0)
    unfolding search
    search-zero e =
        ap (λ n. search hz bits size low upper true (freelist_count - index n) (index n) s) e
        ∙ ap (λ k. search hz bits size low upper true (freelist_count - k) k s) index-zero

    -- `xalloc` fails and leaves every segment as it was, or it returns the address of a new used
    -- segment of the rounded size, within the bounds and the arena, beside those used before; the
    -- arena stays in order. The arena does not start at 0.
    pub xalloc-Fitted : Fitted hz bits size low upper s (xalloc hz bits s wanted low limit)
    xalloc-Fitted = elim (Bool-cases (size == 0)) [
      | inl e ↦
          subst (Fitted hz bits size low upper s) (sym (xalloc-search ∙ search-zero (ground arith)))
            (inl (refl, stays s v))
      | inr e ↦ subst (Fitted hz bits size low upper s) (sym xalloc-search) (
          search-Fitted size low upper (ground arith) (freelist_count - index size) (index size) s
            positive v)
    ]
