-- ===== src/Rtl/Text/Places.antt =====
-- What an access of memory leaves at each place.
use mathlib.Core.Option.{some-injective}
use crescent.Common.{
  ℕ, zero, suc, ◌+◌, ◌*◌, ◌/◌, ◌%◌, ◌≤◌, ◌<◌, ◌≡◌, refl, ap, sym, ◌∙◌, arith, Bool, true, false,
  some, List, [], ◌∷◌, ◌==◌, if◌then◌else◌, length, take, get_or,
}
use crescent.Rtl.Text.{copy_at, put}
use crescent.Rtl.Text.Access.{copy_lem, halves}

get_or-take : (n j : ℕ) (xs : List ℕ) → j < n → get_or (take n xs) j 0 ≡ get_or xs j 0
get_or-take zero j xs h = absurd (omega arith)
get_or-take (suc n) j [] h = refl
get_or-take (suc n) zero (x ∷ xs) h = refl
get_or-take (suc n) (suc j) (x ∷ xs) h = get_or-take n j xs (omega arith)

same_get_or :
    (n j : ℕ) (xs ys : List ℕ) → j < n → take n xs ≡ take n ys → get_or xs j 0 ≡ get_or ys j 0
same_get_or n j xs ys h e =
    sym (get_or-take n j xs h) ∙ ap (λ l. get_or l j 0) e ∙ get_or-take n j ys h

-- A copy puts the characters of the source from index `i` on.
copy_at-puts :
    (i n : ℕ) (src dest : List ℕ)
    → n ≤ length src
    → i + n ≤ length dest
    → (ys : List ℕ) × (copy_at i (2 * n) src dest ≡ some ys)
      × ((j : ℕ) → j < n → get_or ys (i + j) 0 ≡ get_or src j 0)
unfolding copy_at
copy_at-puts zero n src dest hs hd =
    let (ys, e, len, front) = copy_lem n src dest hs (omega arith) in
    (ys, e, λ j h. ap (λ k. get_or ys k 0) (omega arith) ∙ same_get_or n j ys src h front)
copy_at-puts (suc i) n src [] hs hd = absurd (omega arith)
copy_at-puts (suc i) n src (y ∷ dest) hs hd =
    let (ys, e, puts) = copy_at-puts i n src dest (omega arith) (omega arith) in
    (y ∷ ys, rw e refl, λ j h. ap (λ k. get_or (y ∷ ys) k 0) (shift j) ∙ puts j h)
  where
    shift : (j : ℕ) → suc i + j ≡ suc (i + j)
    shift j = omega arith

pub copy_at_places :
    (i m : ℕ) (src dest ys : List ℕ)
    → m % 2 ≡ 0
    → m / 2 ≤ length src
    → i + m / 2 ≤ length dest
    → copy_at i m src dest ≡ some ys
    → (j : ℕ) → j < m / 2
    → get_or ys (i + j) 0 ≡ get_or src j 0
copy_at_places i m src dest ys even hs hd e j h =
    let (zs, e', puts) = copy_at-puts i (m / 2) src dest hs hd in
    let same : zs ≡ ys =
      some-injective _ _ (sym e' ∙ ap (λ k. copy_at i k src dest) (sym (halves m even)) ∙ e) in
    ap (λ l. get_or l (i + j) 0) (sym same) ∙ puts j h

-- A write changes one place.
put_places :
    (i v j : ℕ) (xs : List ℕ)
    → i < length xs
    → i == j ≡ false
    → (ys : List ℕ) × (put i v xs ≡ some ys) × (get_or ys j 0 ≡ get_or xs j 0)
unfolding put
put_places i v j [] h ne = absurd (omega arith)
put_places zero v zero (x ∷ xs) h ne = absurd (ground arith)
put_places zero v (suc j) (x ∷ xs) h ne = (v ∷ xs, refl, refl)
put_places (suc i) v zero (x ∷ xs) h ne =
    let (ys, e, same) = put_places i v (suc i) xs (omega arith) (ground arith) in
    (x ∷ ys, rw e refl, refl)
put_places (suc i) v (suc j) (x ∷ xs) h ne =
    let (ys, e, same) = put_places i v j xs (omega arith) (ground arith) in
    (x ∷ ys, rw e refl, same)

pub put_if_places :
    (b : Bool) (i j : ℕ) (xs ys : List ℕ)
    → (b ≡ true → i < length xs)
    → (if b then put i 0 xs else some xs) ≡ some ys
    → i == j ≡ false
    → get_or ys j 0 ≡ get_or xs j 0
put_if_places true i j xs ys h e ne =
    let (zs, e', same) = put_places i 0 j xs (h refl) ne in
    let here : zs ≡ ys = some-injective _ _ (sym e' ∙ e) in ap (λ l. get_or l j 0) (sym here) ∙ same
put_if_places false i j xs ys h e ne = ap (λ l. get_or l j 0) (sym (some-injective _ _ e))
