-- ===== src/ListEntry/Removal.antt =====
-- The removal of an entry of a doubly linked list.
use crescent.Common.{
  ℕ, ◌≡◌, refl, inl, inr, arith, true, false, List, [], ◌∷◌, ◌++◌, ◌==◌, mem, Bool-cases,
}
use crescent.ListEntry.{Links, remove_entry}
use crescent.ListEntry.Ring.{Linked, AllDistinct, IsRing, frame, mem-append, ne_of_mem, last_in}

first_in :
    (h : Links) (p : ℕ) (ys : List ℕ) (q : ℕ)
    → Linked h p ys q
    → mem (h.flink p) (ys ++ q ∷ []) ≡ true
first_in h p [] q (to, from) = ground (arith, to)
first_in h p (y ∷ ys) q (to, from, rest) = ground (arith, to)

off_both :
    (x p : ℕ) (xs ys : List ℕ) (q : ℕ)
    → ((y : ℕ) → mem y ys ≡ true → mem y (p ∷ x ∷ xs) ≡ false)
    → mem q (x ∷ xs) ≡ false
    → mem x (ys ++ q ∷ []) ≡ false
off_both x p xs ys q apart q_off = elim (Bool-cases (mem x ys)) [
  | inl e ↦ absurd (ground (arith, apart x e))
  | inr e ↦ ground (arith, mem-append x ys (q ∷ []))
]

remove_entry-Linked :
    (h : Links) (p : ℕ) (xs : List ℕ) (e : ℕ) (ys : List ℕ) (q : ℕ)
    → Linked h p xs e
    → Linked h e ys q
    → AllDistinct (p ∷ xs)
    → mem e (p ∷ xs) ≡ false
    → mem e (ys ++ q ∷ []) ≡ false
    → ((y : ℕ) → mem y ys ≡ true → mem y (p ∷ xs) ≡ false)
    → mem q xs ≡ false
    → AllDistinct ys
    → mem q ys ≡ false
    → Linked (remove_entry h e).0 p (xs ++ ys) q
unfolding remove_entry
remove_entry-Linked h p [] e [] q (to, from) (to', from') d e_off e_off' apart q_off dy q_off' =
    (ground (arith, to, from, to', from'), ground (arith, to, from, to', from'))
remove_entry-Linked h p [] e (y ∷ ys) q (to, from) (to', from', rest) d e_off e_off' apart q_off
      (y_off, dy) q_off' =
    (
      ground (arith, to, from, to', from'),
      ground (arith, to, from, to', from'),
      frame h (remove_entry h e).0 y ys q (λ z m. ground (arith, apart z m, from))
          (λ z m. ground (
            arith,
            ne_of_mem z y (ys ++ q ∷ []) m (ground (arith, mem-append y ys (q ∷ []))),
            from,
            to',
            e_off,
          ))
          rest,
    )
remove_entry-Linked h p (x ∷ xs) e ys q (to, from, rest) after (px, d) e_off e_off' apart q_off dy
      q_off' =
    let prev_in : mem (h.blink e) (x ∷ xs) ≡ true = last_in h p x xs e (to, from, rest) in
    let next_in : mem (h.flink e) (ys ++ q ∷ []) ≡ true = first_in h e ys q after in
    let e_prev : h.blink e == e ≡ false = ne_of_mem (h.blink e) e (x ∷ xs) prev_in (ground arith) in
    let x_off : mem x (ys ++ q ∷ []) ≡ false = off_both x p xs ys q apart q_off in
    let x_next : h.flink e == x ≡ false = ne_of_mem (h.flink e) x (ys ++ q ∷ []) next_in x_off in
    (
      ground (arith, ne_of_mem (h.blink e) p (x ∷ xs) prev_in px, to),
      ground (arith, e_prev, x_next, from),
      remove_entry-Linked h x xs e ys q rest after d (ground arith) e_off'
          (λ y m. ground (arith, apart y m)) (ground arith) dy q_off',
    )

-- The parts of a sequence around one of its entries.
Linked-split :
    (h : Links) (p : ℕ) (xs : List ℕ) (e : ℕ) (ys : List ℕ) (q : ℕ)
    → Linked h p (xs ++ e ∷ ys) q
    → Linked h p xs e × Linked h e ys q
Linked-split h p [] e ys q (to, from, rest) = ((to, from), rest)
Linked-split h p (x ∷ xs) e ys q (to, from, rest) =
    let (before, after) = Linked-split h x xs e ys q rest in ((to, from, before), after)

distinct_split :
    (xs : List ℕ) (e : ℕ) (ys : List ℕ)
    → AllDistinct (xs ++ e ∷ ys)
    → AllDistinct xs
      × AllDistinct ys
      × (mem e xs ≡ false)
      × (mem e ys ≡ false)
      × ((y : ℕ) → mem y ys ≡ true → mem y xs ≡ false)
      × AllDistinct (xs ++ ys)
distinct_split [] e ys (off, d) = (tt, d, refl, off, λ y m. refl, d)
distinct_split (x ∷ xs) e ys (off, d) =
    let (dx, dy, ex, ey, apart, both) = distinct_split xs e ys d in
    (
      (ground (arith, mem-append x xs (e ∷ ys)), dx),
      dy,
      ground (arith, mem-append x xs (e ∷ ys)),
      ey,
      λ y m. ground (arith, mem-append x xs (e ∷ ys), apart y m, ne_of_mem y x ys m),
      (ground (arith, mem-append x xs (e ∷ ys), mem-append x xs ys), both),
    )

-- `RemoveEntryList` takes an entry out of its list, wherever it stands there.
pub remove_entry-IsRing :
    (h : Links) (head entry : ℕ) (xs ys : List ℕ)
    → IsRing h head (xs ++ entry ∷ ys)
    → IsRing (remove_entry h entry).0 head (xs ++ ys)
remove_entry-IsRing h head entry xs ys v =
    let (before, after) = Linked-split h head xs entry ys head v.linked in
    let (dx, dy, ex, ey, apart, both) = distinct_split (head ∷ xs) entry ys v.distinct in
    record {
      linked =
          remove_entry-Linked h head xs entry ys head before after dx ex
            (ground (arith, mem-append entry ys (head ∷ []))) apart dx.0 dy
            (ground (arith, mem-append head xs (entry ∷ ys), v.distinct));
      distinct = both;
    }
