-- ===== src/CString/Writes.antt =====
-- What the functions that write a string leave in the destination.
use crescent.Common.{
  ℕ, zero, suc, ◌+◌, ◌≤◌, ◌<◌, ◌≡◌, refl, ap, ◌∙◌, inl, inr, ◌⊎◌, arith, true, false, Option, none,
  some, List, [], ◌∷◌, ◌++◌, ltb, leb, ◌==◌, if◌then◌else◌, length, Bool-cases,
}
use crescent.CString.{strcat_s, append_at, copy_units, einval, strncpy, strncpy_at, fail_empty}
use crescent.CString.Strings.{
  IsText, strlen_lem, find_end_lem, copy_units_lem, put_empty, length-IsText,
}

-- A result that holds the text `s`, in memory of the size of `dest`.
abbrev pub Gives : Option (Option (List ℕ) × ℕ) → ℕ → List ℕ → List ℕ → Type 0
Gives r status dest s =
    (d : List ℕ) × (r ≡ some (some d, status)) × IsText d s × (length d ≡ length dest)

fails_empty : (dest : List ℕ) → 0 < length dest → Gives (fail_empty einval dest) einval dest []
fails_empty dest h = let (d, e, text, len) = put_empty dest h in (d, rw e refl, text, len)

append_at_fits :
    (dest d src s : List ℕ) (size n : ℕ)
    → IsText src s
    → leb (n + length s + 1) size ≡ true
    → copy_units n (length s + 1) src dest ≡ some d
    → append_at dest size src (some n) ≡ some (some d, 0)
unfolding append_at
append_at_fits dest d src s size n h fits copied = rw (strlen_lem src s h, fits, copied) refl

append_at_full :
    (dest src s : List ℕ) (size n : ℕ)
    → IsText src s
    → leb (n + length s + 1) size ≡ false
    → append_at dest size src (some n) ≡ fail_empty einval dest
unfolding append_at
append_at_full dest src s size n h fits = rw (strlen_lem src s h, fits) refl

strcat_s-append_at :
    (dest t src : List ℕ) (size : ℕ)
    → IsText dest t
    → strcat_s (some dest) size (some src)
      ≡ append_at dest size src (if ltb (length t) size then some (length t) else none)
unfolding strcat_s
strcat_s-append_at dest t src size h = rw (find_end_lem dest t size h) refl

append_at-none :
    (dest src : List ℕ) (size : ℕ) → append_at dest size src none ≡ some (some dest, einval)
unfolding append_at
append_at-none dest src size = refl

-- `strcat_s` and `wcscat_s` put the source behind the destination's text if both fit the size with
-- a terminator; otherwise they report an error, and leave no text, or, where the destination's text
-- does not end within the size, that text. They write nothing past the memory.
pub strcat_s_lem :
    (dest t src s : List ℕ) (size : ℕ)
    → IsText dest t
    → IsText src s
    → size ≤ length dest
    → let r = strcat_s (some dest) size (some src) in
      ((length t + length s < size) × Gives r 0 dest (t ++ s))
      ⊎ (((length t < size) × (size ≤ length t + length s) × Gives r einval dest [])
          ⊎ ((size ≤ length t) × Gives r einval dest t))
strcat_s_lem dest t src s size hd hs room = elim (Bool-cases (ltb (length t) size)) [
  | inl e ↦ elim (Bool-cases (leb (length t + length s + 1) size)) [
    | inl f ↦
        let fits : length t + length s < length dest = ground arith in
        let (d, found, text, len) = copy_units_lem dest t src s hd hs fits in
        inl (
          ground arith,
          (d, start e ∙ append_at_fits dest d src s size (length t) hs f found, text, len),
        )
    | inr f ↦
        let (d, found, text, len) = fails_empty dest (ground (arith, length-IsText dest t hd)) in
        inr (
          inl (
            ground arith,
            ground arith,
            (d, start e ∙ append_at_full dest src s size (length t) hs f ∙ found, text, len),
          ))
  ]
  | inr e ↦ inr (
      inr (
        ground arith,
        (
          dest,
          strcat_s-append_at dest t src size hd
              ∙ ap (append_at dest size src) (ap (λ b. if b then some (length t) else none) e)
              ∙ append_at-none dest src size,
          hd,
          refl,
        ),
      ))
]
  where
    start :
        ltb (length t) size ≡ true
        → strcat_s (some dest) size (some src) ≡ append_at dest size src (some (length t))
    start e =
        strcat_s-append_at dest t src size hd
        ∙ ap (append_at dest size src) (ap (λ b. if b then some (length t) else none) e)

-- The zeros behind the text.
pad_lem :
    (dest src : List ℕ) (x count : ℕ)
    → x ≡ 0
    → count ≤ length dest
    → (d : List ℕ) × (strncpy_at dest (x ∷ src) count ≡ some d)
      × (0 < count → IsText d [])
      × (length d ≡ length dest)
unfolding strncpy_at
pad_lem dest src x zero e room = (dest, refl, λ pos. absurd (omega arith), refl)
pad_lem [] src x (suc count) e room = absurd (omega arith)
pad_lem (y ∷ dest) src x (suc count) e room =
    let (d, found, text, len) = pad_lem dest src x count e (omega arith) in
    let stop : x == 0 ≡ true = ground arith in (x ∷ d, rw (stop, found) refl, λ pos. e, ap suc len)

strncpy_at_lem :
    (dest src s : List ℕ) (count : ℕ)
    → IsText src s
    → length s < count
    → count ≤ length dest
    → (d : List ℕ) × (strncpy_at dest src count ≡ some d) × IsText d s × (length d ≡ length dest)
unfolding strncpy_at
strncpy_at_lem dest src s zero hs more room = absurd (omega arith)
strncpy_at_lem [] src s (suc count) hs more room = absurd (omega arith)
strncpy_at_lem (y ∷ dest) [] s (suc count) hs more room = absurd hs
strncpy_at_lem (y ∷ dest) (x ∷ src) [] (suc count) hs more room =
    let (d, found, text, len) = pad_lem (y ∷ dest) src x (suc count) hs room in
    (d, found, text (omega arith), len)
strncpy_at_lem (y ∷ dest) (x ∷ src) (c ∷ s) (suc count) (e, ne, hs) more room =
    let (d, found, text, len) = strncpy_at_lem dest src s count hs (omega arith) (omega arith) in
    let nx : x == 0 ≡ false = rw e ne in (x ∷ d, rw (nx, found) refl, (e, ne, text), ap suc len)

strncpy-strncpy_at :
    (dest src : List ℕ) (y count : ℕ)
    → y == 0 ≡ true
    → strncpy (y ∷ dest) src count ≡ strncpy_at (y ∷ dest) src count
unfolding strncpy
strncpy-strncpy_at dest src y count e = rw e refl

-- `strncpy` keeps the text that the destination holds and puts the source behind it, as `strncat`
-- would, if the count exceeds the source's length and the memory has room.
pub strncpy_appends :
    (dest t src s : List ℕ) (count : ℕ)
    → IsText dest t
    → IsText src s
    → length s < count
    → length t + count ≤ length dest
    → (d : List ℕ) × (strncpy dest src count ≡ some d)
      × IsText d (t ++ s)
      × (length d ≡ length dest)
unfolding strncpy
strncpy_appends [] t src s count hd hs more room = absurd hd
strncpy_appends (y ∷ dest) [] src s count hd hs more room =
    let (d, found, text, len) = strncpy_at_lem (y ∷ dest) src s count hs more (omega arith) in
    (d, strncpy-strncpy_at dest src y count (ground arith) ∙ found, text, len)
strncpy_appends (y ∷ dest) (c ∷ t) src s count (e, ne, hd) hs more room =
    let (d, found, text, len) = strncpy_appends dest t src s count hd hs more (omega arith) in
    let ny : y == 0 ≡ false = rw e ne in (y ∷ d, rw (ny, found) refl, (e, ne, text), ap suc len)
