-- ===== src/Slab/Alloc.antt =====
-- `alloc`: the node that it gives was not in use.
use crescent.Common.{
  ℕ, ◌*◌, ◌/◌, ◌≡◌, inl, inr, refl, sym, ap, ◌∙◌, subst, arith, Bool, true, false, List, [], ◌∷◌,
  List-cases, some, ◌==◌, if◌then◌else◌, length, Bool-cases,
}
use crescent.HzList.{HzList}
use crescent.HzFront.{HzFront, count}
use crescent.Slab.{
  SlabAllocator, new_page, split_page, Freelist, Result, nodes, capacity, alloc_from, alloc_at,
  put_slab,
}
use crescent.Slab.Nodes.{length-nodes}
use crescent.Slab.Invariant.{IsSlab}
use crescent.Page.{Pages, page_size, pmalloc}
use crescent.Page.Single.{Allocates, Loses, pmalloc-Allocates, pmalloc_stays}
use crescent.Slab.Take.{t, m, alloc_from-take, take-Hands}
use crescent.Slab.Fresh.{fresh, grown, fresh-Hands}
use crescent.Slab.Outcome.{Serves}

module _ (hz : HzList) (front : HzFront) where
  module _ (s : SlabAllocator) (l : Freelist) (own : ℕ → Bool) (v : IsSlab s l own) where
    not_null : (free : Pages) (page : ℕ) → Loses s.free page free → page * page_size == 0 ≡ false
    not_null free page loses = elim (Bool-cases (page == 0)) [
      | inl e ↦ absurd (ground (arith, v.no_null, loses.0 0))
      | inr e ↦ ground arith
    ]

    new_page-split :
        (free : Pages) (phys page node : ℕ) (chain : List ℕ)
        → phys ≡ page * page_size
        → page * page_size == 0 ≡ false
        → nodes (page * page_size) l.size (capacity l.size) ≡ node ∷ chain
        → new_page hz front s l (free, phys)
          ≡ some (
            record s {
              free = free;
              slab = put_slab s.slab page (record { count = 1; freelist = chain });
            },
            record l { pages = front.push_front l.pages page },
            node,
          )
    new_page-split free phys page node chain at ne e =
        ap (λ k. new_page hz front s l (free, k)) at
        ∙ ap test ne
        ∙ ap (split_page hz front (record s { free = free }) l (page * page_size)) e
        ∙ ap made (div_page page)
      where
        test : Bool → Result
        test b =
            if b
            then some (record s { free = free }, l, 0)
            else split_page hz front (record s { free = free }) l (page * page_size)
                (nodes (page * page_size) l.size (capacity l.size))

        made : ℕ → Result
        made k = some (
          record s {
            free = free;
            slab = put_slab s.slab k (record { count = 1; freelist = chain });
          },
          record l { pages = front.push_front l.pages k },
          node,
        )

        div_page : (k : ℕ) → k * page_size / page_size ≡ k
        div_page k = omega arith

    alloc_from-none :
        l.pages ≡ [] → alloc_from hz front s l ≡ new_page hz front s l (pmalloc hz s.free)
    unfolding alloc_from
    alloc_from-none e = ap (alloc_at hz front s l) e

    used_up : l.pages ≡ [] → (page : ℕ) → own page ≡ true → (s.slab page).freelist ≡ []
    used_up none_left page mine = elim (List-cases (s.slab page).freelist) [
      | inl e ↦ e
      | inr (node, chain, e) ↦ absurd (
          ground (arith, v.listed page, v.filled page mine, ap (count page) none_left, ap length e))
    ]

    new_page-Serves :
        (r : Pages × ℕ)
        → l.pages ≡ []
        → r.0.early ≡ false
        → Allocates s.free r
        → Serves s l own (new_page hz front s l r)
    new_page-Serves (free, phys) none_left late (inr ((zero_addr, same), none_free)) =
        let no_page : phys == 0 ≡ true = ground (arith, zero_addr) in
        (
          record s { free = free },
          l,
          0,
          ap split_if no_page,
          inl (refl, refl, ap (λ k. record s { free = k }) same, none_free, used_up none_left),
        )
      where
        split_if : Bool → Result
        split_if b =
            if b
            then some (record s { free = free }, l, 0)
            else split_page hz front (record s { free = free }) l phys
                (nodes phys l.size (capacity l.size))
    new_page-Serves (free, phys) none_left late (inl (page, at, loses)) =
        elim (List-cases (nodes (page * page_size) l.size (capacity l.size))) [
          | inl e ↦ absurd (
              omega (
                arith,
                ap length e,
                length-nodes (page * page_size) l.size (capacity l.size),
                v.two,
              ))
          | inr (node, chain, e) ↦ (
            fresh hz front s l own v free page node chain none_left late loses e,
            grown hz front s l own v free page node chain none_left late loses e,
            node,
            new_page-split free phys page node chain at (not_null free page loses) e,
            inr (fresh-Hands hz front s l own v free page node chain none_left late loses e),
          )
        ]

    -- At a list whose invariant holds, `alloc` fails no assertion: it gives a node of the size of the
    -- list that was not in use, and no other node changes, or 0 if no page is free and none of the
    -- pages of the list has a free node. The invariant holds afterwards.
    pub alloc_from-Serves : Serves s l own (alloc_from hz front s l)
    alloc_from-Serves = elim (List-cases l.pages) [
      | inl e ↦ subst (Serves s l own) (sym (alloc_from-none e)) (
          new_page-Serves (pmalloc hz s.free) e (pmalloc_stays hz s.free v.late)
            (pmalloc-Allocates hz s.free v.late v.valid))
      | inr (page, rest, e) ↦ elim (List-cases (s.slab page).freelist) [
        | inl f ↦
            absurd (ground (arith, v.listed page, ap (count page) e, v.filled page, ap length f))
        | inr (node, chain, f) ↦ (
          t hz front s l own v page node rest chain e f,
          m hz front s l own v page node rest chain e f,
          node,
          alloc_from-take hz front s l own v page node rest chain e f,
          inr (take-Hands hz front s l own v page node rest chain e f),
        )
      ]
    ]
