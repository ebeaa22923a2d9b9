-- ===== src/Sched/Dpc/Queue.antt =====
-- The list that the links of a DPC queue form.
use crescent.Common.{
  mem, ℕ, ◌≡◌, refl, ◌∙◌, ◌≢◌, true, false, ◌||◌, List, [], ◌∷◌, ◌++◌, arith, ◌==◌,
}
use crescent.Sched.Dpc.{Cpu, update}

-- The links lead from the node `p` through `xs` to null, over entries that are not null and distinct.
abbrev pub Linked : (ℕ → ℕ) → ℕ → List ℕ → Type 0
Linked next p [] = next p ≡ 0
Linked next p (x ∷ xs) = (next p ≡ x) × (x ≢ 0) × (mem x xs ≡ false) × Linked next x xs

abbrev pub last : ℕ → List ℕ → ℕ
last p [] = p
last p (x ∷ xs) = last x xs

-- The queue holds `xs`, in this order, with `dpc_list_tail` at its end.
pub record Holds (c : Cpu) (xs : List ℕ) : Type 0 where
  pub linked : Linked c.next 0 xs
  pub tail_last : xs ≢ [] → c.tail ≡ last 0 xs
  pub marked : (d : ℕ) → d ≢ 0 → c.queued d ≡ mem d xs

-- A write to a node off the list leaves the list.
pub Linked-update :
    (next : ℕ → ℕ) (p q v : ℕ) (xs : List ℕ)
    → (q == p) ≡ false
    → mem q xs ≡ false
    → Linked next p xs
    → Linked (update next q v) p xs
Linked-update next p q v [] ne a l = ground arith
Linked-update next p q v (x ∷ xs) ne a (e, z, m, l) =
    (ground arith, z, m, Linked-update next x q v xs (ground arith) (ground arith) l)

pub null_off_list : (next : ℕ → ℕ) (p : ℕ) (xs : List ℕ) → Linked next p xs → mem 0 xs ≡ false
null_off_list next p [] l = refl
null_off_list next p (x ∷ xs) (e, z, m, l) = ground (arith, null_off_list next x xs l)

-- A list can start at any node off it that has the same `Next`.
pub Linked-restart :
    (next : ℕ → ℕ) (p q : ℕ) (xs : List ℕ) → next q ≡ next p → Linked next p xs → Linked next q xs
Linked-restart next p q [] e l = e ∙ l
Linked-restart next p q (x ∷ xs) e (f, z, m, l) = (e ∙ f, z, m, l)

-- `d` linked in between `p` and the list behind it.
pub Linked-front :
    (next : ℕ → ℕ) (p d : ℕ) (xs : List ℕ)
    → mem d xs ≡ false
    → mem p xs ≡ false
    → d ≢ 0
    → (d == p) ≡ false
    → Linked next p xs
    → Linked (update (update next d (next p)) p d) p (d ∷ xs)
Linked-front next p d xs a b z ne l = (
  ground arith,
  z,
  a,
  Linked-restart (update (update next d (next p)) p d) d d xs refl
      (Linked-update (update next d (next p)) d p d xs (ground arith) b (go xs a l)),
)
  where
    go : (ys : List ℕ) → mem d ys ≡ false → Linked next p ys → Linked (update next d (next p)) d ys
    go [] a l = ground arith
    go (x ∷ ys) a (e, y, m, l) =
        (ground arith, y, m, Linked-update next x d (next p) ys (ground arith) (ground arith) l)

pub mem-last : (x : ℕ) (xs : List ℕ) → mem (last x xs) (x ∷ xs) ≡ true
mem-last x [] = ground arith
mem-last x (y ∷ ys) = ground (arith, mem-last y ys)

pub mem-append : (d : ℕ) (xs ys : List ℕ) → mem d (xs ++ ys) ≡ (mem d xs || mem d ys)
mem-append d [] ys = refl
mem-append d (x ∷ xs) ys = ground (arith, mem-append d xs ys)

-- `d` linked in behind the last entry. Its own `Next` is null.
pub Linked-back :
    (next : ℕ → ℕ) (p d : ℕ) (xs : List ℕ)
    → mem d xs ≡ false
    → mem p xs ≡ false
    → d ≢ 0
    → (d == p) ≡ false
    → next d ≡ 0
    → Linked next p xs
    → Linked (update next (last p xs) d) p (xs ++ d ∷ [])
Linked-back next p d [] a b z ne fresh l = (ground arith, z, refl, ground arith)
Linked-back next p d (x ∷ xs) a b z ne fresh (e, y, m, l) = (
  ground (arith, mem-last x xs),
  y,
  ground (arith, mem-append x xs (d ∷ [])),
  Linked-back next x d xs (ground arith) m z (ground arith) fresh l,
)

pub last-append : (p d : ℕ) (xs : List ℕ) → last p (xs ++ d ∷ []) ≡ d
last-append p d [] = refl
last-append p d (x ∷ xs) = last-append x d xs
