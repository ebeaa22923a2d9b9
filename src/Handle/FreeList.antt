-- ===== src/Handle/FreeList.antt =====
-- The free list that runs through the slots of the table, and the invariant of the table.
use crescent.Common.{
  ℕ, ◌^◌, ◌≤◌, ◌<◌, ◌≡◌, ap, ◌≢◌, true, false, List, [], ◌∷◌, arith, length, get_or-set_ne, set,
}
use crescent.Handle.{Handle, HandleTable, blank, slot, invalid_handle}

abbrev pub Absent : ℕ → List ℕ → Type 0
Absent i [] = Unit {0}
Absent i (j ∷ js) = (i ≢ j) × Absent i js

-- The list `is` of free slots below `u`, linked from `h` through `object`, with no slot twice.
abbrev pub Chain : List Handle → ℕ → ℕ → List ℕ → Type 0
Chain t u h [] = h ≡ invalid_handle
Chain t u h (i ∷ is) =
    (h ≡ i) × (i < u) × ((slot t i).free ≡ true) × Absent i is × Chain t u (slot t i).object is

pub record IsValid (t : HandleTable) : Type 0 where
  pub free_slots : List ℕ
  pub free_list : Chain t.table t.used t.free_handle_index free_slots
  pub filled : t.used ≤ t.size
  pub sized : length t.table ≡ t.size
  pub bounded : t.size < 2 ^ 60
  pub untouched : (i : ℕ) → t.used ≤ i → (slot t.table i).object ≡ 0

-- A slot that is not free is not on the list.
pub Chain-Absent :
    (t : List Handle) (u h i : ℕ) (is : List ℕ)
    → (slot t i).free ≡ false
    → Chain t u h is
    → Absent i is
Chain-Absent t u h i [] f c = tt
Chain-Absent t u h i (j ∷ js) f c =
    ((λ e. cc (ap (λ k. (slot t k).free) e)), Chain-Absent t u (slot t j).object i js f (c.4))

pub Chain-set :
    (t : List Handle) (u h i : ℕ) (v : Handle) (is : List ℕ)
    → Absent i is
    → Chain t u h is
    → Chain (set t i v) u h is
Chain-set t u h i v [] a c = c
Chain-set t u h i v (j ∷ js) a c =
    rw (get_or-set_ne t i j v blank a.0)
      (c.0, c.1, c.2, c.3, Chain-set t u (slot t j).object i v js a.1 c.4)

pub Chain-mono :
    (t : List Handle) (u w h : ℕ) (is : List ℕ) → u ≤ w → Chain t u h is → Chain t w h is
Chain-mono t u w h [] le c = c
Chain-mono t u w h (j ∷ js) le c =
    (c.0, omega arith, c.2, c.3, Chain-mono t u w (slot t j).object js le c.4)

-- An array with the same slots carries the same list.
pub Chain-same :
    (t s : List Handle) (u h : ℕ) (is : List ℕ)
    → ((i : ℕ) → slot s i ≡ slot t i)
    → Chain t u h is
    → Chain s u h is
Chain-same t s u h [] e c = c
Chain-same t s u h (j ∷ js) e c =
    rw (e j) (c.0, c.1, c.2, c.3, Chain-same t s u (slot t j).object js e c.4)
