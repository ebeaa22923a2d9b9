-- ===== src/Slab/Dealloc.antt =====
-- `dealloc`: the node that is given back is no longer in use.
use crescent.Common.{
  ℕ, ◌+◌, ◌-◌, ◌*◌, ◌/◌, ◌%◌, ◌≤◌, ◌^◌, ◌≡◌, inl, inr, refl, sym, ap, ◌∙◌, subst, arith, Bool, true,
  false, not, ◌&&◌, List, ◌∷◌, ◌==◌, if◌then◌else◌, Bool-cases,
}
use crescent.HzList.{HzList}
use crescent.HzFront.{HzFront, count}
use crescent.Slab.{SlabAllocator, Freelist, nodes, capacity, dealloc_from, free_page, free_node}
use crescent.Slab.Nodes.{count-full, nodes-once, length-nodes}
use crescent.Slab.Outcome.{GivesBack}
use crescent.Slab.Invariant.{IsSlab, live}
use crescent.Page.{page_size, pfree}
use crescent.Page.Single.{Loses, pfree_lem, pfree_stays}
use crescent.Page.Cover.{cover, IsValid}

module _ (hz : HzList) (front : HzFront) where
  module _ (s : SlabAllocator) (l : Freelist) (own : ℕ → Bool) (v : IsSlab s l own) (ptr : ℕ)
      (used : 1 ≤ live s l own ptr) where
    abbrev page : ℕ
    page = ptr / page_size

    abbrev n : ℕ
    n = (s.slab page).count

    abbrev left : ℕ
    left = (n + 2 ^ 16 - 1) % 2 ^ 16

    owned : own page ≡ true
    owned = ground (arith, used)

    abbrev all : List ℕ
    all = nodes (page * page_size) l.size (capacity l.size)

    on : (count ptr all ≡ 1) × (count ptr (s.slab page).freelist ≡ 0)
    on =
        ground (arith, used, nodes-once (page * page_size) l.size (capacity l.size) ptr v.some_room)

    one_less : left + 1 ≡ n
    one_less = omega (arith, v.filled page owned, v.fits)

    within : (q : ℕ) → count q (ptr ∷ (s.slab page).freelist) ≤ count q all
    within q = ground (arith, on, v.chain page q owned)

    node-GivesBack :
        left == 0 ≡ false → GivesBack s l own (free_node hz front s l page left ptr) ptr
    node-GivesBack some_left = record {
      owner = own;
      inv = record {
        some_room = v.some_room;
        two = v.two;
        fits = v.fits;
        late = v.late;
        valid = v.valid;
        no_null = v.no_null;
        no_zero = v.no_zero;
        apart = v.apart;
        filled =
            λ p mine. ground (arith, v.filled p mine, v.filled page owned, one_less, some_left);
        chain = λ p q mine. ground (arith, v.chain p q mine, within q);
        listed = λ p. ground (
          arith,
          v.listed p,
          ap (count p) (front.push_front_lem l.pages page),
          owned,
          one_less,
          v.filled page owned,
          v.two,
        );
      };
      same_size = refl;
      lives = λ q. ground (arith, within q, owned, v.chain page q owned);
      pages = λ f. refl;
      others = λ p ne. ground (arith, ne);
    }

    -- The page of the last node in use.
    last : left == 0 ≡ true → (q : ℕ) → count q all ≤ count q (ptr ∷ (s.slab page).freelist)
    last none_left = count-full (ptr ∷ (s.slab page).freelist) all within (
        ground (
          arith,
          length-nodes (page * page_size) l.size (capacity l.size),
          v.filled page owned,
          one_less,
        ))

    same_page : page * page_size / page_size ≡ page
    same_page = omega arith

    loses : Loses (pfree hz s.free (page * page_size)) page s.free
    loses =
        subst (λ k. Loses (pfree hz s.free (page * page_size)) k s.free) same_page
          (pfree_lem hz s.free (page * page_size) v.valid
            (ap (cover s.free) same_page ∙ v.apart page owned)).0

    valid : IsValid (pfree hz s.free (page * page_size))
    valid =
        (pfree_lem hz s.free (page * page_size) v.valid
          (ap (cover s.free) same_page ∙ v.apart page owned)).1

    page-GivesBack : left == 0 ≡ true → GivesBack s l own (free_page hz front s l page) ptr
    page-GivesBack none_left = record {
      owner = λ p. own p && not (p == page);
      inv = record {
        some_room = v.some_room;
        two = v.two;
        fits = v.fits;
        late = pfree_stays hz s.free (page * page_size) ∙ v.late;
        valid = valid;
        no_null = ground (arith, v.no_null, loses.0 0, v.no_zero, owned);
        no_zero = ground (arith, v.no_zero);
        apart = λ p mine. ground (arith, v.apart p, loses.0 p);
        filled = λ p mine. ground (arith, v.filled p);
        chain = λ p q mine. ground (arith, v.chain p q);
        listed = λ p. ground (
          arith,
          v.listed p,
          v.listed page,
          front.count-remove l.pages page p,
          owned,
          one_less,
          v.two,
          v.filled page owned,
          none_left,
        );
      };
      same_size = refl;
      lives = λ q. ground (arith, within q, last none_left q, owned);
      pages = λ f. ground (arith, loses.0 f, owned);
      others = λ p ne. ground (arith, ne);
    }

    -- At a list whose invariant holds, a node in use that `dealloc` is given back is not in use any more, and no other node changes;
    -- the page of its last node is free for `pmalloc` again, and no page else. The invariant holds afterwards.
    pub dealloc_from-GivesBack : GivesBack s l own (dealloc_from hz front s l ptr) ptr
    unfolding dealloc_from
    dealloc_from-GivesBack = elim (Bool-cases (left == 0)) [
      | inl e ↦
          subst
            (λ b.
              GivesBack s l own
                (if b then free_page hz front s l page else free_node hz front s l page left ptr)
                ptr)
            (sym e) (page-GivesBack e)
      | inr e ↦
          subst
            (λ b.
              GivesBack s l own
                (if b then free_page hz front s l page else free_node hz front s l page left ptr)
                ptr)
            (sym e) (node-GivesBack e)
    ]
