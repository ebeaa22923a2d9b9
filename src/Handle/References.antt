-- ===== src/Handle/References.antt =====
-- The references that the handle table holds: one for each handle of an object.
use crescent.Common.{
  ℕ, zero, suc, ◌+◌, ◌^◌, ◌<◌, ◌≡◌, refl, sym, ◌∙◌, ap, ◌≢◌, inl, inr, Bool, true, false, not, ◌&&◌,
  List, [], ◌∷◌, ◌++◌, arith, length, set, replicate, ◌==◌, Bool-cases, bit,
}
use crescent.Handle.{
  Handle, HandleTable, Objects, blank, slot, enlarge, fill, append_slot, insert, release, remove,
  reference, dereference, drop_all, destroy,
}
use crescent.Handle.FreeList.{IsValid}
use crescent.Handle.Invariant.{
  unlinked, first_free, insert_cases, remove_cases, enlarge-IsValid, enlarged_room,
}

abbrev pub holds : ℕ → Handle → ℕ
holds o h = bit (not h.free && h.object == o)

-- The number of handles of an object.
abbrev pub handle_count : ℕ → List Handle → ℕ
handle_count o [] = 0
handle_count o (h ∷ hs) = holds o h + handle_count o hs

-- Every object has the references that others hold and one for each of its handles; a permanent
-- object is also held by others.
pub record IsBalanced (others : ℕ → ℕ) (t : HandleTable) : Type 0 where
  pub balanced : (o : ℕ) → o ≢ 0 → t.objects.count o ≡ others o + handle_count o t.table
  pub held : (o : ℕ) → t.objects.permanent o ≡ true → 0 < others o

handle_count-set :
    (o : ℕ) (t : List Handle) (i : ℕ) (v : Handle)
    → i < length t
    → handle_count o (set t i v) + holds o (slot t i) ≡ handle_count o t + holds o v
handle_count-set o [] i v h = absurd (omega arith)
handle_count-set o (x ∷ xs) zero v h = omega arith
handle_count-set o (x ∷ xs) (suc i) v h = omega (arith, handle_count-set o xs i v (omega arith))

handle_count-replicate : (o n : ℕ) → o ≢ 0 → handle_count o (replicate n blank) ≡ 0
handle_count-replicate o zero h = refl
handle_count-replicate o (suc n) h = ground (arith, handle_count-replicate o n h)

handle_count-append :
    (o n : ℕ) (t : List Handle) → o ≢ 0 → handle_count o (t ++ replicate n blank) ≡ handle_count o t
handle_count-append o n [] h = handle_count-replicate o n h
handle_count-append o n (x ∷ xs) h = omega (arith, handle_count-append o n xs h)

fill-IsBalanced :
    (others : ℕ → ℕ) (t : HandleTable) (ret object : ℕ) (inherit : Bool)
    → ret < length t.table
    → ((o : ℕ) → o ≢ 0 → holds o (slot t.table ret) ≡ 0)
    → IsBalanced others t
    → IsBalanced others (fill t ret object inherit).0
unfolding fill reference
fill-IsBalanced others t ret object inherit lt empty b = record {
  balanced = λ o ne. ground (
    arith,
    b.balanced o ne,
    empty o ne,
    handle_count-set o t.table ret (record { object = object; free = false; inherit = inherit }) lt,
  );
  held = b.held;
}

dereference-count :
    (s : Objects) (p o n : ℕ)
    → o ≢ 0
    → s.count o ≡ n + bit (p == o)
    → (s.permanent o ≡ true → 0 < n)
    → (dereference s p).count o ≡ n
unfolding dereference
dereference-count s p o n ne e held = elim (Bool-cases (p == o)) [
  | inl q ↦
      let same : p ≡ o = ground arith in
      rw same (elim (Bool-cases (s.permanent o)) [
        | inl perm ↦ let pos = held perm in ground arith
        | inr temp ↦ ground arith
      ])
  | inr q ↦ ground arith
]

dereference-permanent : (s : Objects) (p : ℕ) → (dereference s p).permanent ≡ s.permanent
unfolding dereference
dereference-permanent s p = ground arith

empty_if_free :
    (t : HandleTable) (i o : ℕ) → (slot t.table i).free ≡ true → holds o (slot t.table i) ≡ 0
empty_if_free t i o f = rw f

-- A slot that was never used holds the null object.
empty_if_unused :
    (t : HandleTable) (i o : ℕ) → o ≢ 0 → (slot t.table i).object ≡ 0 → holds o (slot t.table i) ≡ 0
empty_if_unused t i o ne e = ground arith

append_slot-IsBalanced :
    (others : ℕ → ℕ) (t : HandleTable) (object : ℕ) (inherit : Bool)
    → IsValid t
    → t.used < t.size
    → IsBalanced others t
    → IsBalanced others (append_slot t object inherit).0
unfolding append_slot
append_slot-IsBalanced others t object inherit v lt b =
    fill-IsBalanced others (record t { used = t.used + 1 }) t.used object inherit
      (omega (arith, v.sized))
      (λ o ne. empty_if_unused t t.used o ne (v.untouched t.used (omega arith)))
      (record { balanced = b.balanced; held = b.held })

enlarge-IsBalanced :
    (others : ℕ → ℕ) (t : HandleTable) → IsBalanced others t → IsBalanced others (enlarge t)
unfolding enlarge
enlarge-IsBalanced others t b = record {
  balanced =
      λ o ne. b.balanced o ne ∙ ap (λ n. others o + n) (sym (handle_count-append o _ t.table ne));
  held = b.held;
}

-- `insert` keeps the account: the object has one reference more, and one handle more.
pub insert-IsBalanced :
    (others : ℕ → ℕ) (memory : ℕ → Bool) (t : HandleTable) (object : ℕ) (inherit : Bool)
    → t.size < 2 ^ 59
    → IsValid t
    → IsBalanced others t
    → IsBalanced others (insert memory t object inherit).0
insert-IsBalanced others memory t object inherit h v b =
    insert_cases (λ r. IsBalanced others r.0) memory t object inherit
      (λ ne.
        let (lt, f) = first_free t v ne in
        fill-IsBalanced others (unlinked t) t.free_handle_index object inherit
          (omega (arith, v.sized, v.filled)) (λ o _. empty_if_free t t.free_handle_index o f)
          (record { balanced = b.balanced; held = b.held }))
      (λ e ne. append_slot-IsBalanced others t object inherit v (omega (arith, v.filled)) b)
      (λ e full m.
        append_slot-IsBalanced others (enlarge t) object inherit (enlarge-IsValid t v h)
          (enlarged_room t h (omega (arith, v.filled))) (enlarge-IsBalanced others t b))
      (λ e full m. b)

release-IsBalanced :
    (others : ℕ → ℕ) (t : HandleTable) (k : ℕ)
    → k < length t.table
    → (slot t.table k).free ≡ false
    → IsBalanced others t
    → IsBalanced others (release t k)
unfolding release
release-IsBalanced others t k lt f b = record {
  balanced = λ o ne.
      dereference-count t.objects loc.object o _ ne
        (ground (
          arith,
          b.balanced o ne,
          handle_count-set o t.table k (record loc { free = true; object = t.free_handle_index })
              lt,
          f,
        ))
        (λ perm. omega (arith, b.held o perm));
  held = λ o. rw (dereference-permanent t.objects loc.object) (b.held o);
}
  where
    loc : Handle
    loc = slot t.table k

-- `remove` keeps it: the object has one reference less, and one handle less.
pub remove-IsBalanced :
    (others : ℕ → ℕ) (t : HandleTable) (k : ℕ)
    → IsValid t
    → IsBalanced others t
    → IsBalanced others (remove t k).0
remove-IsBalanced others t k v b =
    remove_cases (λ r. IsBalanced others r.0) t k
      (λ lt f. release-IsBalanced others t k (omega (arith, v.sized, v.filled)) f b) (λ _. b)

drop_all-count :
    (s : Objects) (hs : List Handle) (o n : ℕ)
    → o ≢ 0
    → s.count o ≡ n + handle_count o hs
    → (s.permanent o ≡ true → 0 < n)
    → (drop_all s hs).count o ≡ n
unfolding drop_all
drop_all-count s [] o n ne e held = omega arith
drop_all-count s (h ∷ hs) o n ne e held = elim (Bool-cases h.free) [
  | inl f ↦ rw f (drop_all-count s hs o n ne (ground arith) held)
  | inr f ↦ rw f (
      drop_all-count (dereference s h.object) hs o n ne
        (dereference-count s h.object o (n + handle_count o hs) ne (ground arith)
          (λ perm. omega (arith, held perm)))
        (λ perm. held (rw (← dereference-permanent s h.object) perm)))
]

-- The destructor gives back the reference of every handle: what is left are those of others.
pub destroy-count :
    (others : ℕ → ℕ) (t : HandleTable) (o : ℕ)
    → o ≢ 0
    → IsBalanced others t
    → (destroy t).count o ≡ others o
unfolding destroy
destroy-count others t o ne b =
    drop_all-count t.objects t.table o (others o) ne (b.balanced o ne) (b.held o)
