-- ===== src/ListEntry/Ring.antt =====
-- The links as a sequence of entries, and what the operations do to it.
use crescent.Common.{
  ℕ, ◌≡◌, refl, ap, sym, ◌∙◌, inl, inr, arith, true, false, ◌||◌, List, [], ◌∷◌, ◌++◌, ◌==◌, mem,
  Bool-cases,
}
use crescent.ListEntry.{Links, initialize, insert_head, insert_tail}

-- `xs` are the entries between `p` and `q`, each linked with its neighbours both ways.
abbrev pub Linked : Links → ℕ → List ℕ → ℕ → Type 0
Linked h p [] q = (h.flink p ≡ q) × (h.blink q ≡ p)
Linked h p (x ∷ xs) q = (h.flink p ≡ x) × (h.blink x ≡ p) × Linked h x xs q

abbrev pub AllDistinct : List ℕ → Type 0
AllDistinct [] = Unit {0}
AllDistinct (x ∷ xs) = (mem x xs ≡ false) × AllDistinct xs

-- The list of `head` has the entries `xs`.
pub record IsRing (h : Links) (head : ℕ) (xs : List ℕ) : Type 0 where
  pub linked : Linked h head xs head
  pub distinct : AllDistinct (head ∷ xs)

-- Links that agree where a sequence reads them.
pub frame :
    (h h' : Links) (p : ℕ) (xs : List ℕ) (q : ℕ)
    → ((y : ℕ) → mem y (p ∷ xs) ≡ true → h'.flink y ≡ h.flink y)
    → ((y : ℕ) → mem y (xs ++ q ∷ []) ≡ true → h'.blink y ≡ h.blink y)
    → Linked h p xs q
    → Linked h' p xs q
frame h h' p [] q f b (to, from) = (f p (ground arith) ∙ to, b q (ground arith) ∙ from)
frame h h' p (x ∷ xs) q f b (to, from, rest) = (
  f p (ground arith) ∙ to,
  b x (ground arith) ∙ from,
  frame h h' x xs q (λ y m. f y (ground (arith, m))) (λ y m. b y (ground (arith, m))) rest,
)

pub mem-append : (y : ℕ) (xs ys : List ℕ) → mem y (xs ++ ys) ≡ (mem y xs || mem y ys)
mem-append y [] ys = refl
mem-append y (x ∷ xs) ys = ground (arith, mem-append y xs ys)

pub ne_of_mem : (y z : ℕ) (xs : List ℕ) → mem y xs ≡ true → mem z xs ≡ false → y == z ≡ false
ne_of_mem y z xs m n = elim (Bool-cases (y == z)) [
  | inl e ↦
      let same : y ≡ z = ground arith in absurd (clash (sym (ap (λ k. mem k xs) same ∙ n) ∙ m))
  | inr e ↦ e
]
  where
    clash : false ≡ true → ⊥
    clash e = cc

-- An empty list.
pub initialize-IsRing : (h : Links) (head : ℕ) → IsRing (initialize h head) head []
unfolding initialize
initialize-IsRing h head = record { linked = (ground arith, ground arith); distinct = (refl, tt) }

-- `InsertHeadList` puts a new entry in front.
pub insert_head-IsRing :
    (h : Links) (head entry : ℕ) (xs : List ℕ)
    → IsRing h head xs
    → mem entry (head ∷ xs) ≡ false
    → IsRing (insert_head h head entry) head (entry ∷ xs)
unfolding insert_head
insert_head-IsRing h head entry [] v new = record {
  linked = (
    ground (arith, v.linked),
    ground (arith, v.linked),
    (ground (arith, v.linked), ground (arith, v.linked)),
  );
  distinct = (ground (arith, v.distinct), ground (arith, v.distinct));
}
insert_head-IsRing h head entry (x ∷ xs) v new =
    let (to, from, rest) = v.linked in
    let (head_new, (x_new, d)) = v.distinct in
    let x_off : mem x (xs ++ head ∷ []) ≡ false = ground (arith, mem-append x xs (head ∷ [])) in
    let entry_off : mem entry (xs ++ head ∷ []) ≡ false =
      ground (arith, mem-append entry xs (head ∷ [])) in
    record {
      linked = (
        ground (arith, to),
        ground (arith, to),
        (
          ground (arith, to),
          ground (arith, to),
          frame h (insert_head h head entry) x xs head
              (λ y m. ground (
                arith,
                ne_of_mem y head (x ∷ xs) m head_new,
                ne_of_mem y entry (x ∷ xs) m (ground arith),
              ))
              (λ y m. ground (
                arith,
                ne_of_mem y x (xs ++ head ∷ []) m x_off,
                ne_of_mem y entry (xs ++ head ∷ []) m entry_off,
              ))
              rest,
        ),
      );
      distinct = (ground arith, (ground arith, (x_new, d)));
    }

-- The last entry is what the end links back to.
pub last_in :
    (h : Links) (p x : ℕ) (xs : List ℕ) (q : ℕ)
    → Linked h p (x ∷ xs) q
    → mem (h.blink q) (x ∷ xs) ≡ true
last_in h p x [] q (to, from, (to', from')) = ground (arith, from')
last_in h p x (y ∷ xs) q (to, from, rest) = ground (arith, last_in h x y xs q rest)

insert_tail-Linked :
    (h : Links) (p : ℕ) (xs : List ℕ) (q e : ℕ)
    → Linked h p xs q
    → AllDistinct (p ∷ xs)
    → mem e (p ∷ xs) ≡ false
    → e == q ≡ false
    → mem q xs ≡ false
    → Linked (insert_tail h q e) p (xs ++ e ∷ []) q
unfolding insert_tail
insert_tail-Linked h p [] q e (to, from) d new other apart =
    (ground (arith, from), ground (arith, from), (ground (arith, from), ground (arith, from)))
insert_tail-Linked h p (x ∷ xs) q e (to, from, rest) (px, d) new other apart = (
  ground (arith, ne_of_mem (h.blink q) p (x ∷ xs) (last_in h p x xs q (to, from, rest)) px),
  ground arith,
  insert_tail-Linked h x xs q e rest d (ground arith) other (ground arith),
)

AllDistinct-append_one :
    (xs : List ℕ) (e : ℕ) → AllDistinct xs → mem e xs ≡ false → AllDistinct (xs ++ e ∷ [])
AllDistinct-append_one [] e d new = (refl, tt)
AllDistinct-append_one (x ∷ xs) e (off, d) new =
    (ground (arith, mem-append x xs (e ∷ [])), AllDistinct-append_one xs e d (ground arith))

-- `InsertTailList` puts a new entry at the end.
pub insert_tail-IsRing :
    (h : Links) (head entry : ℕ) (xs : List ℕ)
    → IsRing h head xs
    → mem entry (head ∷ xs) ≡ false
    → IsRing (insert_tail h head entry) head (xs ++ entry ∷ [])
insert_tail-IsRing h head entry xs v new = record {
  linked =
      insert_tail-Linked h head xs head entry v.linked v.distinct new (ground arith) v.distinct.0;
  distinct = AllDistinct-append_one (head ∷ xs) entry v.distinct new;
}
