-- ===== src/Slab/Take.antt =====
-- `alloc` from the page at the front of the list.
use crescent.Common.{
  ℕ, ◌+◌, ◌/◌, ◌%◌, ◌^◌, ◌≡◌, refl, ap, ◌∙◌, arith, Bool, true, false, List, ◌∷◌, none, some, ◌==◌,
  bit, if◌then◌else◌, length,
}
use crescent.HzList.{HzList}
use crescent.HzFront.{HzFront, count}
use crescent.Slab.{
  SlabAllocator, Freelist, Result, capacity, take_node, alloc_from, alloc_at, put_slab,
}
use crescent.Slab.Nodes.{node_page}
use crescent.Slab.Invariant.{IsSlab, live}
use crescent.Page.{page_size}
use crescent.Slab.Outcome.{Hands}

module _ (hz : HzList) (front : HzFront) where
  module _ (s : SlabAllocator) (l : Freelist) (own : ℕ → Bool) (v : IsSlab s l own) (page node : ℕ)
      (rest chain : List ℕ) (first : l.pages ≡ page ∷ rest)
      (at : (s.slab page).freelist ≡ node ∷ chain) where
    abbrev n : ℕ
    n = (s.slab page).count

    abbrev pub t : SlabAllocator
    t = record s { slab = put_slab s.slab page (record { count = n + 1; freelist = chain }) }

    abbrev pub m : Freelist
    m = record l { pages = if n + 1 == capacity l.size then rest else page ∷ rest }

    owned : (own page ≡ true) × (n == capacity l.size ≡ false)
    owned = ground (arith, v.listed page, ap (count page) first)

    one_more : (n + 1) % 2 ^ 16 ≡ n + 1
    one_more = ground (arith, v.filled page owned.0, v.fits, owned.1)

    head : (q : ℕ) → count q (s.slab page).freelist ≡ bit (q == node) + count q chain
    head q = ap (count q) at

    home : node / page_size ≡ page
    home =
        node_page page l.size node v.some_room
          (ground (arith, v.chain page node owned.0, head node))

    take-IsSlab : IsSlab t m own
    take-IsSlab = record {
      some_room = v.some_room;
      two = v.two;
      fits = v.fits;
      late = v.late;
      valid = v.valid;
      no_null = v.no_null;
      no_zero = v.no_zero;
      apart = v.apart;
      filled = λ p mine. ground (arith, v.filled p mine, v.filled page owned.0, ap length at);
      chain = λ p q mine. ground (arith, v.chain p q mine, v.chain page q owned.0, head q);
      listed = λ p.
          ground
            (arith, v.listed p, ap (count p) first, owned, v.listed page, ap (count page) first);
    }

    take-live : (q : ℕ) → live t m own q ≡ bit (q == node) + live s l own q
    take-live q = ground (arith, home, owned, head q, v.chain page q owned.0, head node)

    pub alloc_from-take : alloc_from hz front s l ≡ some (t, m, node)
    unfolding alloc_from
    alloc_from-take =
        ap (alloc_at hz front s l) first
        ∙ ap (take_node hz front s l page rest) at
        ∙ ap full owned.1
        ∙ ap counted one_more
      where
        counted : ℕ → Result
        counted k = some (
          record s { slab = put_slab s.slab page (record { count = k; freelist = chain }) },
          record l { pages = if k == capacity l.size then rest else page ∷ rest },
          node,
        )

        full : Bool → Result
        full b = if b then none else counted ((n + 1) % 2 ^ 16)

    pub take-Hands : Hands s l own t m node
    take-Hands = record {
      owner = own;
      inv = take-IsSlab;
      same_size = refl;
      lives = take-live;
      pages = λ f. refl;
      others = λ p ne. ground (arith, home, ne);
    }
