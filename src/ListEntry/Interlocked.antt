-- ===== src/ListEntry/Interlocked.antt =====
-- The removal of the first entry, with what ExInterlockedRemoveHeadList of src/std/list.cpp returns.
use crescent.Common.{ℕ, ◌≡◌, refl, sym, subst, arith, false, none, some, List, [], ◌∷◌, mem}
use crescent.ListEntry.{Links, remove_head, remove_entry, interlocked_remove_head}
use crescent.ListEntry.Removal.{remove_entry-IsRing}
use crescent.ListEntry.Ring.{Linked, IsRing, last_in, ne_of_mem}

remove_head-remove_entry :
    (h : Links) (head x : ℕ)
    → h.flink head ≡ x
    → h.blink x ≡ head
    → (remove_head h head).0 ≡ (remove_entry h x).0
unfolding remove_head remove_entry
remove_head-remove_entry h head x to from = rw (to, from) refl

-- `RemoveHeadList` takes the first entry out and returns it.
pub remove_head-IsRing :
    (h : Links) (head x : ℕ) (xs : List ℕ)
    → IsRing h head (x ∷ xs)
    → IsRing (remove_head h head).0 head xs × ((remove_head h head).1 ≡ x)
unfolding remove_head
remove_head-IsRing h head x xs v =
    let (to, from, rest) = v.linked in
    (
      subst (λ k. IsRing k head xs) (sym (remove_head-remove_entry h head x to from))
          (remove_entry-IsRing h head x [] xs v),
      to,
    )

interlocked-links :
    (h : Links) (head : ℕ) → (interlocked_remove_head h head).0 ≡ (remove_head h head).0
unfolding interlocked_remove_head
interlocked-links h head = refl

result :
    (h : Links) (head x : ℕ) (xs : List ℕ)
    → Linked h head (x ∷ xs) head
    → mem x xs ≡ false
    → (interlocked_remove_head h head).1 ≡ elim xs [ [] ↦ none | ◌∷◌ y ys ↦ some x ]
unfolding interlocked_remove_head
result h head x [] (to, from, (to', from')) off = ground (arith, to, from')
result h head x (y ∷ ys) (to, from, rest) off =
    ground (arith, to, ne_of_mem (h.blink head) x (y ∷ ys) (last_in h x y ys head rest) off)

-- `ExInterlockedRemoveHeadList` takes the first entry out. It returns that entry only if others are
-- left: the only entry of a list is taken out, and a null pointer is returned.
pub interlocked_remove_head_lem :
    (h : Links) (head x : ℕ) (xs : List ℕ)
    → IsRing h head (x ∷ xs)
    → IsRing (interlocked_remove_head h head).0 head xs
      × ((interlocked_remove_head h head).1 ≡ elim xs [ [] ↦ none | ◌∷◌ y ys ↦ some x ])
interlocked_remove_head_lem h head x xs v = (
  subst (λ k. IsRing k head xs) (sym (interlocked-links h head))
      (remove_head-IsRing h head x xs v).0,
  result h head x xs v.linked v.distinct.1.0,
)
