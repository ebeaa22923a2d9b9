-- ===== src/VMem/Freelists.antt =====
-- src/mem/vmem.cpp: the freelists, which join neighbours, and the hash table of used segments.
use crescent.Common.{
  ℕ, zero, suc, ◌%◌, ◌^◌, Bool, ◌&&◌, Option, none, some, List, [], ◌∷◌, ◌==◌, if◌then◌else◌, add64,
  sub64, length,
}
use crescent.HzFront.{HzFront, HzBits}
use crescent.VMem.Segments.{
  free, used, Segment, VMem, freelist_count, bucket, is_free, put, prev_of, next_of, unhook,
  seg_free,
}

-- The loop of `hashtab_remove`.
abbrev pub find_base : (ℕ → Segment) → ℕ → List ℕ → Option ℕ
find_base segment key [] = none
find_base segment key (entry ∷ l) =
    if (segment entry).base == key then some entry else find_base segment key l

-- A neighbour that passes a test.
abbrev pub keep_if : (ℕ → Bool) → Option ℕ → Option ℕ
keep_if test none = none
keep_if test (some q) = if test q then some q else none

-- The branches of a turn of `freelist_insert`.
abbrev pub by_neighbour : Option ℕ → Option ℕ → (ℕ → VMem) → (ℕ → VMem) → VMem → VMem
by_neighbour (some prev) next f g s = f prev
by_neighbour none (some next) f g s = g next
by_neighbour none none f g s = s

module _ (hz : HzFront) (bits : HzBits) where
  open hz use {push, push_front, remove, insert_before}
  open bits use {countl_zero, has_single_bit, lesser, greater}

  -- As `unsigned int`.
  unfoldable pub size_to_index : ℕ → ℕ
  size_to_index size = sub64 (sub64 freelist_count (countl_zero size)) 1 % 2 ^ 32

  abbrev pub freelist_remove : VMem → ℕ → VMem
  freelist_remove s seg =
      let index = size_to_index (s.segment seg).size in
      record s { freelists = put s.freelists index (remove (s.freelists index) seg) }

  -- The assertion that the segment is not empty is left out, here and in `freelist_insert`: where
  -- segments lie side by side, as Tiles says, none is empty.
  abbrev pub freelist_insert_no_merge : VMem → ℕ → VMem
  freelist_insert_no_merge s seg =
      let index = size_to_index (s.segment seg).size in
      record s {
        segment = put s.segment seg (record (s.segment seg) { type = free });
        freelists = put s.freelists index (push_front (s.freelists index) seg);
      }

  abbrev pub hashtab_insert : VMem → ℕ → VMem
  hashtab_insert s seg =
      let hash = bucket (s.segment seg).base in
      record s {
        segment = put s.segment seg (record (s.segment seg) { type = used });
        hash_tab = put s.hash_tab hash (push_front (s.hash_tab hash) seg);
      }

  -- `hashtab_remove`, from the entry that its loop finds.
  abbrev pub take_entry : VMem → ℕ → Option ℕ → VMem × Option ℕ
  take_entry s hash none = (s, none)
  take_entry s hash (some entry) =
      (record s { hash_tab = put s.hash_tab hash (remove (s.hash_tab hash) entry) }, some entry)

  abbrev pub hashtab_remove : VMem → ℕ → VMem × Option ℕ
  hashtab_remove s key =
      take_entry s (bucket key) (find_base s.segment key (s.hash_tab (bucket key)))

  -- `listed` is free, and `p` ends where `q` starts.
  abbrev pub joins : VMem → ℕ → ℕ → ℕ → Bool
  joins s listed p q =
      is_free (s.segment listed).type
      && add64 (s.segment p).base (s.segment p).size == (s.segment q).base

  unfoldable pub joined_prev : VMem → ℕ → Option ℕ
  joined_prev s seg = keep_if (λ prev. joins s prev prev seg) (prev_of seg s.seg_list)

  unfoldable pub joined_next : VMem → ℕ → Option ℕ
  joined_next s seg = keep_if (λ next. joins s next seg next) (next_of seg s.seg_list)

  -- `q`, which is next to `p`, becomes a part of it; `listed` is the one on a freelist.
  unfoldable pub join : VMem → ℕ → ℕ → ℕ → VMem
  join s listed p q =
      let t = freelist_remove (record s { seg_list = unhook q s.seg_list }) listed in
      seg_free
        (record t {
          segment =
              put t.segment p
                (record (t.segment p) { size = add64 (t.segment p).size (t.segment q).size });
        })
        q

  -- The loop of `freelist_insert`, whose turns but the last take a segment off `seg_list`.
  unfoldable pub coalesce : ℕ → VMem → ℕ → VMem
  unfolding join joined_prev joined_next
  coalesce zero s seg = freelist_insert_no_merge s seg
  coalesce (suc n) s seg =
      by_neighbour (joined_prev s seg) (joined_next s seg)
        (λ prev. coalesce n (join s prev prev seg) prev)
        (λ next. coalesce n (join s next seg next) seg) (freelist_insert_no_merge s seg)

  unfoldable pub freelist_insert : VMem → ℕ → VMem
  unfolding coalesce
  freelist_insert s seg = coalesce (length s.seg_list) s seg
