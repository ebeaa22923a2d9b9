-- ===== src/Handle/Refine.antt =====
-- The handle table refines a finite map from handles to objects.
use crescent.Common.{
  ℕ, ◌+◌, ◌*◌, ◌%◌, ◌^◌, ◌≤◌, ◌<◌, ◌≡◌, refl, sym, ◌∙◌, ap, ◌≢◌, ◌⊎◌, inl, inr, Bool, true, false,
  Option, none, some, arith, length, get_or-set_self, get_or-set_ne, ltb, ◌==◌, Bool-cases, ltb→lt,
  if◌then◌else◌,
}
use crescent.Handle.{
  HandleTable, blank, slot, invalid_handle, grown, enlarge, fill, append_slot, insert, release,
  remove, get,
}
use crescent.Handle.Slots.{slot-append}
use crescent.Handle.FreeList.{IsValid}
use crescent.Handle.Invariant.{
  unlinked, first_free, insert_cases, remove_cases, enlarge-IsValid, enlarged_room,
}

-- The abstract view: the object that each handle stands for.
pub lookup : HandleTable → ℕ → Option ℕ
lookup t k =
    if ltb k t.used
    then (if (slot t.table k).free then none else some (slot t.table k).object)
    else none

-- `get` returns the object of the handle, and leaves every handle as it was.
pub get-lookup :
    (t : HandleTable) (k j : ℕ) → ((get t k).1 ≡ lookup t k) × (lookup (get t k).0 j ≡ lookup t j)
unfolding get lookup
get-lookup t k j = ground arith

-- The map has the object under a handle that stood for nothing, and nothing else has changed.
abbrev pub Adds : HandleTable → ℕ → HandleTable × ℕ → Type 0
Adds t object (t', h) =
    (h < t'.used)
    × (lookup t h ≡ none)
    × ((j : ℕ) → lookup t' j ≡ (if j == h then some object else lookup t j))

-- What the outcome of `insert` means for the map.
abbrev pub Inserts : HandleTable → ℕ → HandleTable × ℕ → Type 0
Inserts t object (t', h) = ((h ≡ invalid_handle) × (t' ≡ t)) ⊎ Adds t object (t', h)

lookup-fill :
    (t : HandleTable) (ret object : ℕ) (inherit : Bool) (j : ℕ)
    → ret < t.used
    → ret < length t.table
    → lookup (fill t ret object inherit).0 j ≡ (if j == ret then some object else lookup t j)
unfolding lookup fill
lookup-fill t ret object inherit j lt fits = elim (Bool-cases (j == ret)) [
  | inl e ↦
      let e' : j ≡ ret = ground arith in
      rw
        (
          e,
          e',
          get_or-set_self t.table ret (record { object = object; free = false; inherit = inherit })
              blank fits,
        )
        (ground arith)
  | inr e ↦ rw (
    e,
    get_or-set_ne t.table ret j (record { object = object; free = false; inherit = inherit }) blank
        (λ q. ground arith),
  )
]

lookup-widen :
    (t : HandleTable) (j : ℕ) → j ≢ t.used → lookup (record t { used = t.used + 1 }) j ≡ lookup t j
unfolding lookup
lookup-widen t j ne = ground arith

lookup_above : (t : HandleTable) (j : ℕ) → t.used ≤ j → lookup t j ≡ none
unfolding lookup
lookup_above t j le = ground arith

lookup_free : (t : HandleTable) (j : ℕ) → (slot t.table j).free ≡ true → lookup t j ≡ none
unfolding lookup
lookup_free t j f = ground arith

lookup-unlinked : (t : HandleTable) (j : ℕ) → lookup (unlinked t) j ≡ lookup t j
unfolding lookup
lookup-unlinked t j = refl

lookup-enlarge : (t : HandleTable) (j : ℕ) → lookup (enlarge t) j ≡ lookup t j
unfolding lookup enlarge
lookup-enlarge t j = rw (slot-append t.table _ j)

append_slot-Adds :
    (t : HandleTable) (object : ℕ) (inherit : Bool)
    → IsValid t
    → t.used < t.size
    → Adds t object (append_slot t object inherit)
unfolding append_slot
append_slot-Adds t object inherit v lt = (
  unfold fill in (omega arith),
  lookup_above t t.used (omega arith),
  λ j. ground (
    arith,
    lookup-fill (record t { used = t.used + 1 }) t.used object inherit j (omega arith)
        (omega (arith, v.sized)),
    lookup-widen t j,
  ),
)

reuse-Adds :
    (t : HandleTable) (object : ℕ) (inherit : Bool)
    → IsValid t
    → t.free_handle_index ≢ invalid_handle
    → Adds t object (fill (unlinked t) t.free_handle_index object inherit)
unfolding fill
reuse-Adds t object inherit v ne =
    let (lt, f) = first_free t v ne in
    (
      lt,
      lookup_free t t.free_handle_index f,
      λ j.
          lookup-fill (unlinked t) t.free_handle_index object inherit j lt
            (omega (arith, v.sized, v.filled))
          ∙ ap (λ o. if j == t.free_handle_index then some object else o) (lookup-unlinked t j),
    )

bigger-Adds :
    (t : HandleTable) (object : ℕ) (inherit : Bool)
    → t.size < 2 ^ 59
    → IsValid t
    → Adds t object (append_slot (enlarge t) object inherit)
bigger-Adds t object inherit h v =
    let room = enlarged_room t h (omega (arith, v.filled)) in
    let (lt, free, same) =
      append_slot-Adds (enlarge t) object inherit (enlarge-IsValid t v h) room in
    let k = (append_slot (enlarge t) object inherit).1 in
    (
      lt,
      sym (lookup-enlarge t k) ∙ free,
      λ j. same j ∙ ap (λ o. if j == k then some object else o) (lookup-enlarge t j),
    )

-- An insertion either fails and changes nothing, or it hands out a handle that stood for nothing,
-- which now stands for the object, while every other handle stands for what it did.
pub insert_refines :
    (memory : ℕ → Bool) (t : HandleTable) (object : ℕ) (inherit : Bool)
    → t.size < 2 ^ 59
    → IsValid t
    → Inserts t object (insert memory t object inherit)
insert_refines memory t object inherit h v =
    insert_cases (Inserts t object) memory t object inherit
      (λ ne. inr (reuse-Adds t object inherit v ne))
      (λ e ne. inr (append_slot-Adds t object inherit v (omega (arith, v.filled))))
      (λ e full m. inr (bigger-Adds t object inherit h v)) (λ e full m. inl (refl, refl))

-- An insertion fails only on a full table with no free slot, when `kmalloc` finds no room for a larger one.
pub insert_fails :
    (memory : ℕ → Bool) (t : HandleTable) (object : ℕ) (inherit : Bool)
    → t.size < 2 ^ 59
    → IsValid t
    → (insert memory t object inherit).1 ≡ invalid_handle
    → (t.free_handle_index ≡ invalid_handle)
      × (t.size ≡ t.used)
      × (memory (grown t.size * 16 % 2 ^ 64) ≡ false)
insert_fails memory t object inherit h v =
    insert_cases
      (λ r.
        r.1 ≡ invalid_handle
        → (t.free_handle_index ≡ invalid_handle)
          × (t.size ≡ t.used)
          × (memory (grown t.size * 16 % 2 ^ 64) ≡ false))
      memory t object inherit (unfold fill in λ ne q. absurd (ne q))
      (unfold append_slot in λ e ne q. absurd (omega (arith, v.filled, v.bounded)))
      (unfold append_slot enlarge in λ e full m q. absurd (omega (arith, v.filled, v.bounded)))
      (λ e full m q. (e, full, m))

lookup-release :
    (t : HandleTable) (k j : ℕ)
    → IsValid t
    → k < t.used
    → lookup (release t k) j ≡ (if j == k then none else lookup t j)
unfolding lookup release
lookup-release t k j v lt = elim (Bool-cases (j == k)) [
  | inl e ↦
      let e' : j ≡ k = ground arith in
      rw (e, e', get_or-set_self t.table k _ blank (omega (arith, v.sized, v.filled)))
        (ground arith)
  | inr e ↦ rw (e, get_or-set_ne t.table k j _ blank (λ q. ground arith))
]

abbrev pub is_some : Option ℕ → Bool
is_some none = false
is_some (some o) = true

-- What the outcome of `remove` means for the map.
abbrev pub Removes : HandleTable → ℕ → HandleTable × Bool → Type 0
Removes t k (t', done) =
    (done ≡ is_some (lookup t k)) × ((j : ℕ) → lookup t' j ≡ (if j == k then none else lookup t j))

dead-Removes :
    (t : HandleTable) (k : ℕ) → (k < t.used → (slot t.table k).free ≡ true) → Removes t k (t, false)
unfolding lookup
dead-Removes t k dead = elim (Bool-cases (ltb k t.used)) [
  | inl e ↦ let f = dead (ltb→lt k t.used e) in (ground arith, λ j. ground (arith, f))
  | inr e ↦ (ground arith, λ j. ground arith)
]

-- `remove` succeeds exactly on the handles that stand for an object, and then makes that handle
-- stand for nothing; it leaves every other handle as it was.
pub remove_refines : (t : HandleTable) (k : ℕ) → IsValid t → Removes t k (remove t k)
remove_refines t k v =
    remove_cases (Removes t k) t k
      (λ lt f. (unfold lookup in (ground arith), λ j. lookup-release t k j v lt))
      (λ dead. dead-Removes t k dead)
