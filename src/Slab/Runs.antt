-- ===== src/Slab/Runs.antt =====
-- The calls of `alloc` and `dealloc` at one freelist, in any order.
use mathlib.Core.Option.{some-injective}
use crescent.Common.{
  ℕ, ◌+◌, ◌*◌, ◌/◌, ◌≤◌, ◌≡◌, ◌⊎◌, inl, inr, refl, sym, ◌∙◌, subst, arith, Bool, false, List, ◌∷◌,
  some, ◌==◌, Bool-cases,
}
use crescent.HzList.{HzList}
use crescent.HzFront.{HzFront, count}
use crescent.VMem.{unhook}
use crescent.VMem.Hooks.{count-unhook}
use crescent.Page.{page_size}
use crescent.Page.Cover.{cover}
use crescent.Slab.{SlabAllocator, Freelist, alloc_from, dealloc_from, capacity}
use crescent.Slab.Nodes.{nodes-once, nodes-apart, node-fits}
use crescent.Slab.Invariant.{IsSlab, live}
use crescent.Slab.Outcome.{Hands, GivesBack}
use crescent.Slab.Alloc.{alloc_from-Serves}
use crescent.Slab.Dealloc.{dealloc_from-GivesBack}

module _ (hz : HzList) (front : HzFront) where
  -- A state that the calls lead to, with the nodes that were given and not given back.
  pub data Steps (s₀ : SlabAllocator) (l₀ : Freelist) (held₀ : List ℕ)
      : SlabAllocator → Freelist → List ℕ → Type 0 where
    start : Steps s₀ l₀ held₀ s₀ l₀ held₀
    allocates :
        {s t : SlabAllocator} {l m : Freelist} {held : List ℕ} {addr : ℕ}
        → Steps s₀ l₀ held₀ s l held
        → alloc_from hz front s l ≡ some (t, m, addr)
        → addr == 0 ≡ false
        → Steps s₀ l₀ held₀ t m (addr ∷ held)
    fails :
        {s t : SlabAllocator} {l m : Freelist} {held : List ℕ}
        → Steps s₀ l₀ held₀ s l held
        → alloc_from hz front s l ≡ some (t, m, 0)
        → Steps s₀ l₀ held₀ t m held
    frees :
        {s : SlabAllocator} {l : Freelist} {held : List ℕ} (ptr : ℕ)
        → Steps s₀ l₀ held₀ s l held
        → 1 ≤ count ptr held
        → Steps s₀ l₀ held₀
            (dealloc_from hz front s l ptr).0
            (dealloc_from hz front s l ptr).1
            (unhook ptr held)

  -- The nodes in use are those that are held.
  pub record Follows (size : ℕ) (s : SlabAllocator) (l : Freelist) (held : List ℕ) : Type 0 where
    pub own : ℕ → Bool
    pub inv : IsSlab s l own
    pub of_size : l.size ≡ size
    pub holds : (q : ℕ) → live s l own q ≡ count q held

  Hands-Follows :
      (size : ℕ) (s t : SlabAllocator) (l m : Freelist) (held : List ℕ) (addr : ℕ)
      → (f : Follows size s l held) → Hands s l f.own t m addr
      → Follows size t m (addr ∷ held)
  Hands-Follows size s t l m held addr f h = record {
    own = h.owner;
    inv = h.inv;
    of_size = h.same_size ∙ f.of_size;
    holds = λ q. ground (arith, h.lives q, f.holds q);
  }

  GivesBack-Follows :
      (size : ℕ) (s : SlabAllocator) (l : Freelist) (held : List ℕ) (ptr : ℕ)
      (r : SlabAllocator × Freelist)
      → 1 ≤ count ptr held
      → (f : Follows size s l held) → GivesBack s l f.own r ptr
      → Follows size r.0 r.1 (unhook ptr held)
  GivesBack-Follows size s l held ptr r on f g = record {
    own = g.owner;
    inv = g.inv;
    of_size = g.same_size ∙ f.of_size;
    holds = λ q. omega (arith, g.lives q, f.holds q, count-unhook ptr q held on);
  }

  abbrev After : ℕ → List ℕ → SlabAllocator × Freelist × ℕ → Type 0
  After size held (t, m, addr) =
      ((addr ≡ 0) × Follows size t m held) ⊎ Follows size t m (addr ∷ held)

  module _ {s : SlabAllocator} {l : Freelist} {own : ℕ → Bool} (v : IsSlab s l own) where
    once : (q n : ℕ) → live s l own q ≡ n → n ≤ 1
    once q n e =
        ground
          (arith, nodes-once (q / page_size * page_size) l.size (capacity l.size) q v.some_room)

    two_nodes :
        (p q : ℕ)
        → 1 ≤ live s l own p
        → 1 ≤ live s l own q
        → p == q ≡ false
        → (p + l.size ≤ q) ⊎ (q + l.size ≤ p)
    two_nodes p q on on' ne = elim (Bool-cases (p / page_size == q / page_size)) [
      | inl e ↦ ground (arith, nodes-apart (p / page_size * page_size) l.size (capacity l.size) p q)
      | inr e ↦ ground (
        arith,
        node-fits (p / page_size) l.size p v.some_room,
        node-fits (q / page_size) l.size q v.some_room,
      )
    ]

  module _ (s₀ : SlabAllocator) (l₀ : Freelist) (own₀ : ℕ → Bool) (v : IsSlab s₀ l₀ own₀)
      (held₀ : List ℕ) (in_use : (q : ℕ) → live s₀ l₀ own₀ q ≡ count q held₀) where
    alloc-Follows :
        {s t : SlabAllocator} {l m : Freelist} {held : List ℕ} {addr : ℕ}
        → Follows l₀.size s l held
        → alloc_from hz front s l ≡ some (t, m, addr)
        → ((addr ≡ 0) × Follows l₀.size t m held) ⊎ Follows l₀.size t m (addr ∷ held)
    alloc-Follows {s} {t} {l} {m} {held} {addr} f e =
        let (t', m', addr', e', out) = alloc_from-Serves hz front s l f.own f.inv in
        subst (After l₀.size held) (some-injective _ _ (sym e' ∙ e)) (elim out [
          | inl (null, l-same, s-same, full, used_up) ↦ inl (
            null,
            subst (λ k. Follows l₀.size k m' held) (sym s-same)
                (subst (λ k. Follows l₀.size s k held) (sym l-same) f),
          )
          | inr h ↦ inr (Hands-Follows l₀.size s t' l m' held addr' f h)
        ])

    Steps-Follows :
        {s : SlabAllocator} {l : Freelist} {held : List ℕ}
        → Steps s₀ l₀ held₀ s l held
        → Follows l₀.size s l held
    Steps-Follows start = record { own = own₀; inv = v; of_size = refl; holds = in_use }
    Steps-Follows (allocates steps e some_addr) = elim (alloc-Follows (Steps-Follows steps) e) [
      | inl (null, f) ↦ absurd (ground (arith, some_addr, null))
      | inr f ↦ f
    ]
    Steps-Follows (fails steps e) = elim (alloc-Follows (Steps-Follows steps) e) [
      | inl (null, f) ↦ f
      | inr f ↦ absurd (ground (arith, f.inv.no_zero, f.holds 0))
    ]
    Steps-Follows (frees {s} {l} {held} ptr steps on) =
        let f : Follows l₀.size s l held = Steps-Follows steps in
        GivesBack-Follows l₀.size s l held ptr (dealloc_from hz front s l ptr) on f
          (dealloc_from-GivesBack hz front s l f.own f.inv ptr (omega (arith, f.holds ptr, on)))

    -- At a list whose invariant holds, with the nodes that are in use held, and after any calls of `alloc`, and of
    -- `dealloc` with nodes that are held: no node is held twice, two that are held do not overlap,
    -- and no page that one lies on is free.
    pub Steps-disjoint :
        (s : SlabAllocator) (l : Freelist) (held : List ℕ)
        → Steps s₀ l₀ held₀ s l held
        → ((q : ℕ) → count q held ≤ 1)
          × ((p q : ℕ)
              → 1 ≤ count p held
              → 1 ≤ count q held
              → p == q ≡ false
              → (p + l₀.size ≤ q) ⊎ (q + l₀.size ≤ p))
          × ((q : ℕ) → 1 ≤ count q held → cover s.free (q / page_size) ≡ 0)
    Steps-disjoint s l held steps =
        let f : Follows l₀.size s l held = Steps-Follows steps in
        (
          λ q. once f.inv q (count q held) (f.holds q),
          λ p q on on' ne.
              subst (λ n. (p + n ≤ q) ⊎ (q + n ≤ p)) f.of_size
                (two_nodes f.inv p q (omega (arith, on, f.holds p)) (omega (arith, on', f.holds q))
                  ne),
          λ q on. f.inv.apart (q / page_size) (ground (arith, on, f.holds q)),
        )
