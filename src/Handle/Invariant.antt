-- ===== src/Handle/Invariant.antt =====
-- Every operation of the handle table keeps its invariant.
use crescent.Common.{
  ℕ, ◌+◌, ◌*◌, ◌%◌, ◌^◌, ◌≤◌, ◌<◌, ◌≡◌, refl, sym, ◌∙◌, ◌≢◌, inl, inr, Bool, true, false, List, [],
  ◌∷◌, arith, length-set, get_or-set_self, get_or-set_ne, ltb, ◌==◌, Bool-cases, ltb→lt, tests,
  subst,
}
use crescent.Handle.{
  Handle, HandleTable, blank, slot, invalid_handle, grown, enlarge, fill, append_slot, insert,
  release, remove,
}
use crescent.Handle.Slots.{slot-append, grown_bounds, length-enlarge}
use crescent.Handle.FreeList.{
  Absent, Chain, IsValid, Chain-Absent, Chain-set, Chain-mono, Chain-same,
}

pub Chain-Absent_above :
    (t : List Handle) (u h i : ℕ) (is : List ℕ) → u ≤ i → Chain t u h is → Absent i is
Chain-Absent_above t u h i [] le c = tt
Chain-Absent_above t u h i (j ∷ js) le c =
    (omega arith, Chain-Absent_above t u (slot t j).object i js le c.4)

fill-IsValid :
    (t : HandleTable) (ret object : ℕ) (inherit : Bool) (v : IsValid t)
    → Absent ret v.free_slots
    → ret < t.used
    → IsValid (fill t ret object inherit).0
unfolding fill
fill-IsValid t ret object inherit v a lt = record {
  free_slots = v.free_slots;
  free_list = Chain-set t.table t.used t.free_handle_index ret _ v.free_slots a v.free_list;
  filled = v.filled;
  sized = length-set t.table ret _ ∙ v.sized;
  bounded = v.bounded;
  untouched = λ i le. rw (get_or-set_ne t.table ret i _ blank (omega arith)) (v.untouched i le);
}

append_slot-IsValid :
    (t : HandleTable) (object : ℕ) (inherit : Bool)
    → IsValid t
    → t.used < t.size
    → IsValid (append_slot t object inherit).0
unfolding append_slot
append_slot-IsValid t object inherit v lt =
    fill-IsValid (record t { used = t.used + 1 }) t.used object inherit wider
      (Chain-Absent_above t.table t.used t.free_handle_index t.used v.free_slots (omega arith)
        v.free_list)
      (omega arith)
  where
    wider : IsValid (record t { used = t.used + 1 })
    wider = record {
      free_slots = v.free_slots;
      free_list =
          Chain-mono t.table t.used (t.used + 1) t.free_handle_index v.free_slots (omega arith)
            v.free_list;
      filled = omega arith;
      sized = v.sized;
      bounded = v.bounded;
      untouched = λ i le. v.untouched i (omega arith);
    }

pub enlarge-IsValid : (t : HandleTable) → IsValid t → t.size < 2 ^ 59 → IsValid (enlarge t)
unfolding enlarge
enlarge-IsValid t v h = record {
  free_slots = v.free_slots;
  free_list =
      Chain-same t.table _ t.used t.free_handle_index v.free_slots (λ i. slot-append t.table _ i)
        v.free_list;
  filled = omega (arith, grown_bounds t.size h);
  sized = length-enlarge t v.sized h;
  bounded = (grown_bounds t.size h).1;
  untouched = λ i le. rw (slot-append t.table _ i) (v.untouched i le);
}

-- The table whose first free slot has been taken off the list.
abbrev pub unlinked : HandleTable → HandleTable
unlinked t = record t { free_handle_index = (slot t.table t.free_handle_index).object }

-- A list that is not empty starts with the slot that the table names.
Chain-head :
    (t : List Handle) (u h : ℕ) (is : List ℕ)
    → h ≢ invalid_handle
    → Chain t u h is
    → (rest : List ℕ) × Chain t u h (h ∷ rest)
Chain-head t u h [] ne c = absurd (ne c)
Chain-head t u h (i ∷ is) ne c = (is, subst (λ k. Chain t u h (k ∷ is)) (sym c.0) c)

unlink-IsValid :
    (t : HandleTable) (v : IsValid t) (rest : List ℕ)
    → Chain t.table t.used t.free_handle_index (t.free_handle_index ∷ rest)
    → IsValid (unlinked t)
unlink-IsValid t v rest c = record {
  free_slots = rest;
  free_list = c.4;
  filled = v.filled;
  sized = v.sized;
  bounded = v.bounded;
  untouched = v.untouched;
}

pub first_free :
    (t : HandleTable)
    → IsValid t
    → t.free_handle_index ≢ invalid_handle
    → (t.free_handle_index < t.used) × ((slot t.table t.free_handle_index).free ≡ true)
first_free t v ne =
    let (rest, c) = Chain-head t.table t.used t.free_handle_index v.free_slots ne v.free_list in
    (c.1, c.2)

reuse-IsValid :
    (t : HandleTable) (object : ℕ) (inherit : Bool)
    → IsValid t
    → t.free_handle_index ≢ invalid_handle
    → IsValid (fill (unlinked t) t.free_handle_index object inherit).0
unfolding unlink-IsValid
reuse-IsValid t object inherit v ne =
    let (rest, c) = Chain-head t.table t.used t.free_handle_index v.free_slots ne v.free_list in
    fill-IsValid (unlinked t) t.free_handle_index object inherit (unlink-IsValid t v rest c) c.3 c.1

-- The three ways in which `insert` finds a slot, and its failure.
pub insert_cases {ℓ} :
    (P : HandleTable × ℕ → Type ℓ) (memory : ℕ → Bool) (t : HandleTable) (object : ℕ)
    (inherit : Bool)
    → (t.free_handle_index ≢ invalid_handle
        → P (fill (unlinked t) t.free_handle_index object inherit))
    → (t.free_handle_index ≡ invalid_handle → t.size ≢ t.used → P (append_slot t object inherit))
    → (t.free_handle_index ≡ invalid_handle
        → t.size ≡ t.used
        → memory (grown t.size * 16 % 2 ^ 64) ≡ true
        → P (append_slot (enlarge t) object inherit))
    → (t.free_handle_index ≡ invalid_handle
        → t.size ≡ t.used
        → memory (grown t.size * 16 % 2 ^ 64) ≡ false
        → P (t, invalid_handle))
    → P (insert memory t object inherit)
unfolding insert
insert_cases P memory t object inherit reuse fresh bigger failed =
    elim (Bool-cases (t.free_handle_index == invalid_handle)) [
      | inl e ↦ elim (Bool-cases (t.size == t.used)) [
        | inl f ↦ elim (Bool-cases (memory (grown t.size * 16 % 2 ^ 64))) [
          | inl g ↦ rw (e, f, g) (bigger (ground arith) (ground arith) g)
          | inr g ↦ rw (e, f, g) (failed (ground arith) (ground arith) g)
        ]
        | inr f ↦ rw (e, f) (fresh (ground arith) (λ q. ground arith))
      ]
      | inr e ↦ rw e (reuse (λ q. ground arith))
    ]

pub enlarged_room :
    (t : HandleTable) → t.size < 2 ^ 59 → t.used ≤ t.size → (enlarge t).used < (enlarge t).size
unfolding enlarge
enlarged_room t h le = omega (arith, grown_bounds t.size h)

pub insert-IsValid :
    (memory : ℕ → Bool) (t : HandleTable) (object : ℕ) (inherit : Bool)
    → t.size < 2 ^ 59
    → IsValid t
    → IsValid (insert memory t object inherit).0
insert-IsValid memory t object inherit h v =
    insert_cases (λ r. IsValid r.0) memory t object inherit (reuse-IsValid t object inherit v)
      (λ e ne. append_slot-IsValid t object inherit v (omega (arith, v.filled)))
      (λ e full m.
        append_slot-IsValid (enlarge t) object inherit (enlarge-IsValid t v h)
          (enlarged_room t h (omega (arith, v.filled))))
      (λ e full m. v)

pub remove_cases {ℓ} :
    (P : HandleTable × Bool → Type ℓ) (t : HandleTable) (value : ℕ)
    → (value < t.used → (slot t.table value).free ≡ false → P (release t value, true))
    → ((value < t.used → (slot t.table value).free ≡ true) → P (t, false))
    → P (remove t value)
unfolding remove
remove_cases P t value live dead = elim (Bool-cases (ltb value t.used)) [
  | inl e ↦ elim (Bool-cases (slot t.table value).free) [
    | inl f ↦ rw (e, f) (dead (λ _. f))
    | inr f ↦ rw (e, f) (live (ltb→lt value t.used e) f)
  ]
  | inr e ↦ rw e (dead (λ lt. absurd (omega (tests, lt))))
]

release-IsValid :
    (t : HandleTable) (value : ℕ)
    → value < t.used
    → (slot t.table value).free ≡ false
    → IsValid t
    → IsValid (release t value)
unfolding release
release-IsValid t value lt f v = record {
  free_slots = value ∷ v.free_slots;
  free_list = rw (get_or-set_self t.table value _ blank (omega (arith, v.sized, v.filled))) (
    refl,
    lt,
    refl,
    off,
    Chain-set t.table t.used t.free_handle_index value _ v.free_slots off v.free_list,
  );
  filled = v.filled;
  sized = length-set t.table value _ ∙ v.sized;
  bounded = v.bounded;
  untouched = λ i le. rw (get_or-set_ne t.table value i _ blank (omega arith)) (v.untouched i le);
}
  where
    off : Absent value v.free_slots
    off = Chain-Absent t.table t.used t.free_handle_index value v.free_slots f v.free_list

pub remove-IsValid : (t : HandleTable) (value : ℕ) → IsValid t → IsValid (remove t value).0
remove-IsValid t value v =
    remove_cases (λ r. IsValid r.0) t value (λ lt f. release-IsValid t value lt f v) (λ _. v)
