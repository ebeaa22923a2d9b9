-- ===== src/Slab/Nodes.antt =====
-- The nodes that a page is split into.
use native.Mathlib.Nat.{div-mul-le_self}
use crescent.Common.{
  ℕ, zero, suc, ◌+◌, ◌*◌, ◌/◌, ◌≤◌, ◌<◌, ◌≡◌, refl, ap, arith, false, ◌⊎◌, ◌==◌, List, [], ◌∷◌,
  length,
}
use crescent.HzFront.{count}
use crescent.Slab.{nodes, capacity}
use crescent.Page.{page_size}
use crescent.VMem.{unhook}
use crescent.VMem.Hooks.{count-unhook, length-unhook}

mul_suc : (n size : ℕ) → suc n * size ≡ n * size + size
mul_suc n size = omega arith

pub nodes-bound :
    (phys size n q : ℕ)
    → 1 ≤ size
    → 1 ≤ count q (nodes phys size n)
    → (phys ≤ q) × (q < phys + n * size)
unfolding nodes
nodes-bound phys size zero q some_room on = absurd (omega arith)
nodes-bound phys size (suc n) q some_room on =
    ground (arith, mul_suc n size, nodes-bound phys size n q some_room)

pub nodes-once : (phys size n q : ℕ) → 1 ≤ size → count q (nodes phys size n) ≤ 1
unfolding nodes
nodes-once phys size zero q some_room = omega arith
nodes-once phys size (suc n) q some_room =
    ground (arith, nodes-once phys size n q some_room, nodes-bound phys size n q some_room)

pub length-nodes : (phys size n : ℕ) → length (nodes phys size n) ≡ n
unfolding nodes
length-nodes phys size zero = refl
length-nodes phys size (suc n) = ap suc (length-nodes phys size n)

pub capacity_room : (size : ℕ) → 1 ≤ size → capacity size * size ≤ page_size
unfolding capacity
capacity_room size some_room = div-mul-le_self page_size size

nodes-room :
    (phys size n q : ℕ)
    → 1 ≤ count q (nodes phys size n)
    → (phys ≤ q) × (q + size ≤ phys + n * size)
unfolding nodes
nodes-room phys size zero q on = absurd (omega arith)
nodes-room phys size (suc n) q on = ground (arith, mul_suc n size, nodes-room phys size n q)

-- Two nodes of a page do not overlap.
pub nodes-apart :
    (phys size n p q : ℕ)
    → 1 ≤ count p (nodes phys size n)
    → 1 ≤ count q (nodes phys size n)
    → p == q ≡ false
    → (p + size ≤ q) ⊎ (q + size ≤ p)
unfolding nodes
nodes-apart phys size zero p q on on' ne = absurd (omega arith)
nodes-apart phys size (suc n) p q on on' ne =
    ground (arith, nodes-apart phys size n p q, nodes-room phys size n p, nodes-room phys size n q)

-- A node lies on its page as a whole.
pub node-fits :
    (page size q : ℕ)
    → 1 ≤ size
    → 1 ≤ count q (nodes (page * page_size) size (capacity size))
    → (page * page_size ≤ q) × (q + size ≤ page * page_size + page_size)
node-fits page size q some_room on =
    omega
      (arith, nodes-room (page * page_size) size (capacity size) q on, capacity_room size some_room)

-- A node of a page lies on it.
pub node_page :
    (page size q : ℕ)
    → 1 ≤ size
    → 1 ≤ count q (nodes (page * page_size) size (capacity size))
    → q / page_size ≡ page
node_page page size q some_room on = omega (
  arith,
  nodes-bound (page * page_size) size (capacity size) q some_room on,
  capacity_room size some_room,
)

-- A chain within another that is not longer is all of it.
pub count-full :
    (xs ys : List ℕ)
    → ((q : ℕ) → count q xs ≤ count q ys)
    → length ys ≤ length xs
    → (q : ℕ) → count q ys ≤ count q xs
count-full [] [] within short q = omega arith
count-full [] (y ∷ ys) within short q = absurd (omega arith)
count-full (x ∷ xs) ys within short q =
    let on : 1 ≤ count x ys = ground (arith, within x) in
    omega (
      arith,
      count-unhook x q ys on,
      count-full xs (unhook x ys) (λ r. omega (arith, within r, count-unhook x r ys on))
          (omega (arith, short, length-unhook x ys on)) q,
    )
