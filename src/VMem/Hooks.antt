-- ===== src/VMem/Hooks.antt =====
-- The list that the second hook of the segments makes, which holds each of them once.
use crescent.Common.{
  ℕ, suc, ◌+◌, ◌≤◌, ◌≡◌, inl, inr, refl, sym, ap, ◌∙◌, arith, false, some, List, [], ◌∷◌, ◌++◌,
  ◌==◌, bit, length, Bool-cases,
}
use crescent.HzFront.{HzFront, count}
use crescent.VMem.Segments.{prev_of, next_of, unhook, hook_before}

-- The span says how large the arena is, and takes no room in it.
abbrev pub Once : List ℕ → Type 0
Once l = (p : ℕ) → count p l ≤ 1

pub Once-tail : (x : ℕ) (l : List ℕ) → Once (x ∷ l) → Once l
Once-tail x l o p = omega (arith, o p)

pub count-unhook :
    (p q : ℕ) (l : List ℕ) → 1 ≤ count p l → count q l ≡ bit (q == p) + count q (unhook p l)
unfolding unhook
count-unhook p q [] h = absurd (omega arith)
count-unhook p q (x ∷ l) h = ground (arith, count-unhook p q l)

pub count-hook_before :
    (p x q : ℕ) (l : List ℕ)
    → 1 ≤ count p l
    → count q (hook_before p x l) ≡ bit (q == x) + count q l
unfolding hook_before
count-hook_before p x q [] h = absurd (omega arith)
count-hook_before p x q (y ∷ l) h = ground (arith, count-hook_before p x q l)

pub length-unhook : (p : ℕ) (l : List ℕ) → 1 ≤ count p l → length l ≡ suc (length (unhook p l))
unfolding unhook
length-unhook p [] h = absurd (omega arith)
length-unhook p (x ∷ l) h = ground (arith, length-unhook p l)

-- Both of two neighbours are on the list, and they differ.
pub prev_of-on : (q p : ℕ) (l : List ℕ) → prev_of q l ≡ some p → (1 ≤ count p l) × (1 ≤ count q l)
unfolding prev_of
prev_of-on q p [] e = cc
prev_of-on q p (x ∷ []) e = cc
prev_of-on q p (x ∷ y ∷ l) e = ground (arith, prev_of-on q p (y ∷ l))

pub prev_of-apart : (q p : ℕ) (l : List ℕ) → Once l → prev_of q l ≡ some p → p == q ≡ false
unfolding prev_of
prev_of-apart q p [] o e = cc
prev_of-apart q p (x ∷ []) o e = cc
prev_of-apart q p (x ∷ y ∷ l) o e =
    ground (arith, prev_of-apart q p (y ∷ l) (Once-tail x (y ∷ l) o), o q, o p)

next_of-later : (p q x : ℕ) (l : List ℕ) → next_of p (x ∷ l) ≡ some q → 1 ≤ count q l
unfolding next_of
next_of-later p q x [] e = cc
next_of-later p q x (y ∷ l) e = ground (arith, next_of-later p q y l)

pub prev_of-next_of : (p q : ℕ) (l : List ℕ) → Once l → next_of p l ≡ some q → prev_of q l ≡ some p
unfolding prev_of next_of
prev_of-next_of p q [] o e = cc
prev_of-next_of p q (x ∷ []) o e = cc
prev_of-next_of p q (x ∷ y ∷ l) o e =
    ground (arith, prev_of-next_of p q (y ∷ l) (Once-tail x (y ∷ l) o), o q, next_of-later p q y l)

-- `insert_before` of the library puts a segment where the hooks do.
first_split :
    (p : ℕ) (l : List ℕ)
    → 1 ≤ count p l
    → (a : List ℕ) × (k : List ℕ) × (l ≡ a ++ p ∷ k) × (count p a ≡ 0)
first_split p [] on = absurd (omega arith)
first_split p (x ∷ l) on = elim (Bool-cases (p == x)) [
  | inl here ↦ ([], l, ap (λ k. k ∷ l) (ground arith), refl)
  | inr later ↦
      let (a, k, e, none_before) = first_split p l (ground arith) in
      (x ∷ a, k, ap (λ m. x ∷ m) e, ground arith)
]

hook_before-split :
    (p new : ℕ) (a k : List ℕ) → count p a ≡ 0 → hook_before p new (a ++ p ∷ k) ≡ a ++ new ∷ p ∷ k
unfolding hook_before
hook_before-split p new [] k none_before = ground arith
hook_before-split p new (x ∷ a) k none_before = ground (arith, hook_before-split p new a k)

pub insert_before-hook_before :
    (hz : HzFront) (p new : ℕ) (l : List ℕ)
    → 1 ≤ count p l
    → hz.insert_before l p new ≡ hook_before p new l
insert_before-hook_before hz p new l on =
    let (a, k, e, none_before) = first_split p l on in
    ap (λ m. hz.insert_before m p new) e
    ∙ hz.insert_before_lem a k p new none_before
    ∙ sym (hook_before-split p new a k none_before)
    ∙ ap (hook_before p new) (sym e)
