-- ===== src/Slab/Fresh.antt =====
-- `alloc` from a page that `pmalloc` gives.
use crescent.Common.{
  ℕ, ◌+◌, ◌*◌, ◌/◌, ◌≡◌, refl, ap, arith, Bool, false, ◌||◌, List, [], ◌∷◌, ◌==◌, bit, length,
}
use crescent.HzList.{HzList}
use crescent.HzFront.{HzFront, count}
use crescent.Slab.{SlabAllocator, Freelist, nodes, capacity, put_slab}
use crescent.Slab.Nodes.{node_page, length-nodes}
use crescent.Slab.Invariant.{IsSlab}
use crescent.Page.{Pages, page_size}
use crescent.Page.Single.{Loses}
use crescent.Slab.Outcome.{Hands}

module _ (hz : HzList) (front : HzFront) where
  -- A new page from `pmalloc`.
  module _ (s : SlabAllocator) (l : Freelist) (own : ℕ → Bool) (v : IsSlab s l own) (free : Pages)
      (page node : ℕ) (chain : List ℕ) (none_left : l.pages ≡ []) (late : free.early ≡ false)
      (loses : Loses s.free page free)
      (split : nodes (page * page_size) l.size (capacity l.size) ≡ node ∷ chain) where
    abbrev pub fresh : SlabAllocator
    fresh = record s {
      free = free;
      slab = put_slab s.slab page (record { count = 1; freelist = chain });
    }

    abbrev pub grown : Freelist
    grown = record l { pages = front.push_front l.pages page }

    abbrev owner : ℕ → Bool
    owner p = own p || p == page

    foreign : own page ≡ false
    foreign = ground (arith, v.apart page, loses.0 page)

    of_nodes :
        (q : ℕ)
        → count q (nodes (page * page_size) l.size (capacity l.size))
          ≡ bit (q == node) + count q chain
    of_nodes q = ap (count q) split

    on_page : node / page_size ≡ page
    on_page = node_page page l.size node v.some_room (ground (arith, of_nodes node))

    fresh-IsSlab : IsSlab fresh grown owner
    fresh-IsSlab = record {
      some_room = v.some_room;
      two = v.two;
      fits = v.fits;
      late = late;
      valid = loses.1;
      no_null = ground (arith, v.no_null, loses.0 0);
      no_zero = ground (arith, v.no_zero, v.no_null, loses.0 0);
      apart = λ p mine. ground (arith, v.apart p, loses.0 p, v.valid.once p);
      filled = λ p mine. ground (
        arith,
        v.filled p,
        ap length split,
        length-nodes (page * page_size) l.size (capacity l.size),
      );
      chain = λ p q mine. ground (arith, v.chain p q, of_nodes q);
      listed = λ p. ground (
        arith,
        v.listed p,
        ap (count p) none_left,
        ap (count p) (front.push_front_lem l.pages page),
        foreign,
        v.two,
      );
    }

    pub fresh-Hands : Hands s l own fresh grown node
    fresh-Hands = record {
      owner = owner;
      inv = fresh-IsSlab;
      same_size = refl;
      lives = λ q. ground (arith, on_page, of_nodes q, foreign);
      pages = λ f. ground (arith, loses.0 f, foreign);
      others = λ p ne. ground (arith, on_page, ne);
    }
