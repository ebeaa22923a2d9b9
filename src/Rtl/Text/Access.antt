-- ===== src/Rtl/Text/Access.antt =====
-- What an access of memory gives: a copy that fits, and a write within the memory.
use crescent.Common.{
  ℕ, zero, suc, ◌+◌, ◌*◌, ◌/◌, ◌%◌, ◌≤◌, ◌<◌, ◌≡◌, refl, ap, sym, subst, arith, Bool, true, false,
  Option, none, some, List, [], ◌∷◌, if◌then◌else◌, length, take,
}
use crescent.Rtl.Text.{copy_bytes, copy_at, put}

-- A write that succeeds, with `n` characters in front that are those of `front`.
abbrev pub Writes : Option (List ℕ) → ℕ → ℕ → List ℕ → Type 0
Writes o len n front = (ys : List ℕ) × (o ≡ some ys) × (length ys ≡ len) × (take n ys ≡ front)

pub two_suc : (n : ℕ) → 2 * suc n ≡ suc (suc (2 * n))
two_suc n = omega arith

pub copy_lem :
    (n : ℕ) (src dest : List ℕ)
    → n ≤ length src
    → n ≤ length dest
    → Writes (copy_bytes (2 * n) src dest) (length dest) n (take n src)
unfolding copy_bytes
copy_lem zero src dest hs hd = (dest, refl, refl, refl)
copy_lem (suc n) [] dest hs hd = absurd (omega arith)
copy_lem (suc n) (x ∷ src) [] hs hd = absurd (omega arith)
copy_lem (suc n) (x ∷ src) (y ∷ dest) hs hd =
    let (ys, e, len, front) = copy_lem n src dest (omega arith) (omega arith) in
    (x ∷ ys, rw (two_suc n, e) refl, ap suc len, ap (λ l. x ∷ l) front)

-- A copy to index `i` leaves the first `i` characters.
pub copy_at_lem :
    (i n : ℕ) (src dest : List ℕ)
    → n ≤ length src
    → i + n ≤ length dest
    → Writes (copy_at i (2 * n) src dest) (length dest) i (take i dest)
unfolding copy_at
copy_at_lem zero n src dest hs hd =
    let (ys, e, len, front) = copy_lem n src dest hs (omega arith) in (ys, e, len, refl)
copy_at_lem (suc i) n src [] hs hd = absurd (omega arith)
copy_at_lem (suc i) n src (y ∷ dest) hs hd =
    let (ys, e, len, front) = copy_at_lem i n src dest (omega arith) (omega arith) in
    (y ∷ ys, rw e refl, ap suc len, ap (λ l. y ∷ l) front)

-- A copy that does not fit the memory fails.
pub copy_fails : (n : ℕ) (src dest : List ℕ) → length dest < n → copy_bytes (2 * n) src dest ≡ none
unfolding copy_bytes
copy_fails zero src dest h = absurd (omega arith)
copy_fails (suc n) [] dest h = rw (two_suc n) refl
copy_fails (suc n) (x ∷ src) [] h = rw (two_suc n) refl
copy_fails (suc n) (x ∷ src) (y ∷ dest) h = rw (two_suc n, copy_fails n src dest (omega arith)) refl

pub copy_at_fails :
    (i n : ℕ) (src dest : List ℕ) → 0 < n → length dest < i + n → copy_at i (2 * n) src dest ≡ none
unfolding copy_at
copy_at_fails zero n src dest pos h = copy_fails n src dest (omega arith)
copy_at_fails (suc i) n src [] pos h = refl
copy_at_fails (suc i) n src (y ∷ dest) pos h =
    rw (copy_at_fails i n src dest pos (omega arith)) refl

pub put_lem :
    (i n v : ℕ) (xs : List ℕ)
    → i < length xs
    → n ≤ i
    → Writes (put i v xs) (length xs) n (take n xs)
unfolding put
put_lem i n v [] h hn = absurd (omega arith)
put_lem zero zero v (x ∷ xs) h hn = (v ∷ xs, refl, refl, refl)
put_lem zero (suc n) v (x ∷ xs) h hn = absurd (omega arith)
put_lem (suc i) zero v (x ∷ xs) h hn =
    let (ys, e, len, front) = put_lem i zero v xs (omega arith) (omega arith) in
    (x ∷ ys, rw e refl, ap suc len, refl)
put_lem (suc i) (suc n) v (x ∷ xs) h hn =
    let (ys, e, len, front) = put_lem i n v xs (omega arith) (omega arith) in
    (x ∷ ys, rw e refl, ap suc len, ap (λ l. x ∷ l) front)

pub halves : (n : ℕ) → n % 2 ≡ 0 → n ≡ 2 * (n / 2)
halves n h = omega arith

pub copy_even :
    (m : ℕ) (src dest : List ℕ)
    → m % 2 ≡ 0
    → m / 2 ≤ length src
    → m / 2 ≤ length dest
    → Writes (copy_bytes m src dest) (length dest) (m / 2) (take (m / 2) src)
copy_even m src dest even hs hd =
    subst (λ k. Writes (copy_bytes k src dest) (length dest) (m / 2) (take (m / 2) src))
      (sym (halves m even)) (copy_lem (m / 2) src dest hs hd)

pub copy_at_even :
    (i m : ℕ) (src dest : List ℕ)
    → m % 2 ≡ 0
    → m / 2 ≤ length src
    → i + m / 2 ≤ length dest
    → Writes (copy_at i m src dest) (length dest) i (take i dest)
copy_at_even i m src dest even hs hd =
    subst (λ k. Writes (copy_at i k src dest) (length dest) i (take i dest)) (sym (halves m even))
      (copy_at_lem i (m / 2) src dest hs hd)

-- A terminator that is written if it fits.
pub put_if :
    (b : Bool) (i n : ℕ) (xs : List ℕ)
    → (b ≡ true → i < length xs)
    → n ≤ i
    → Writes (if b then put i 0 xs else some xs) (length xs) n (take n xs)
put_if true i n xs h hn = put_lem i n 0 xs (h refl) hn
put_if false i n xs h hn = (xs, refl, refl, refl)
