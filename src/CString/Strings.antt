-- ===== src/CString/Strings.antt =====
-- The text that memory holds up to its terminator, and the loops that look for the terminator.
use crescent.Common.{
  ℕ, zero, suc, ◌+◌, ◌<◌, ◌≡◌, refl, ap, arith, false, none, some, List, [], ◌∷◌, ◌++◌, ltb, ◌==◌,
  if◌then◌else◌, length,
}
use crescent.Rtl.Text.{put, strlen}
use crescent.CString.{find_end, copy_units}

-- The memory holds the characters of `s`, none of which is 0, and then a terminator.
abbrev pub IsText : List ℕ → List ℕ → Type 0
IsText [] s = ⊥
IsText (x ∷ l) [] = x ≡ 0
IsText (x ∷ l) (c ∷ s) = (x ≡ c) × (c == 0 ≡ false) × IsText l s

pub length-IsText : (l s : List ℕ) → IsText l s → length s < length l
length-IsText [] s h = absurd h
length-IsText (x ∷ l) [] h = omega arith
length-IsText (x ∷ l) (c ∷ s) (e, ne, h) = omega (arith, length-IsText l s h)

pub strlen_lem : (l s : List ℕ) → IsText l s → strlen l ≡ some (length s)
unfolding strlen
strlen_lem [] s h = absurd h
strlen_lem (x ∷ l) [] h = rw h refl
strlen_lem (x ∷ l) (c ∷ s) (e, ne, h) = rw (e, ne, strlen_lem l s h) refl

-- The end that `strcat_s` finds, if it is within the size.
pub find_end_lem :
    (l s : List ℕ) (size : ℕ)
    → IsText l s
    → find_end l size ≡ some (if ltb (length s) size then some (length s) else none)
unfolding find_end
find_end_lem l s zero h = ground arith
find_end_lem [] s (suc size) h = absurd h
find_end_lem (x ∷ l) [] (suc size) h = rw h (ground arith)
find_end_lem (x ∷ l) (c ∷ s) (suc size) (e, ne, h) =
    rw (e, ne, find_end_lem l s size h) (ground arith)

suc_one : (n : ℕ) → suc n + 1 ≡ suc (n + 1)
suc_one n = omega arith

-- A copy of a text with its terminator.
pub copy-IsText :
    (dest src s : List ℕ)
    → IsText src s
    → length s < length dest
    → (d : List ℕ) × (copy_units 0 (length s + 1) src dest ≡ some d)
      × IsText d s
      × (length d ≡ length dest)
unfolding copy_units
copy-IsText [] src s h room = absurd (omega arith)
copy-IsText (y ∷ dest) [] s h room = absurd h
copy-IsText (y ∷ dest) (x ∷ src) [] h room = (x ∷ dest, refl, h, refl)
copy-IsText (y ∷ dest) (x ∷ src) (c ∷ s) (e, ne, h) room =
    let (d, found, text, len) = copy-IsText dest src s h (omega arith) in
    (x ∷ d, rw (suc_one (length s), found) refl, (e, ne, text), ap suc len)

-- The same behind the text that is there.
pub copy_units_lem :
    (dest t src s : List ℕ)
    → IsText dest t
    → IsText src s
    → length t + length s < length dest
    → (d : List ℕ) × (copy_units (length t) (length s + 1) src dest ≡ some d)
      × IsText d (t ++ s)
      × (length d ≡ length dest)
unfolding copy_units
copy_units_lem [] t src s hd hs room = absurd hd
copy_units_lem (y ∷ dest) [] src s hd hs room = copy-IsText (y ∷ dest) src s hs (omega arith)
copy_units_lem (y ∷ dest) (c ∷ t) src s (e, ne, hd) hs room =
    let (d, found, text, len) = copy_units_lem dest t src s hd hs (omega arith) in
    (y ∷ d, rw found refl, (e, ne, text), ap suc len)

-- A terminator at the start.
pub put_empty :
    (dest : List ℕ)
    → 0 < length dest
    → (d : List ℕ) × (put 0 0 dest ≡ some d) × IsText d [] × (length d ≡ length dest)
unfolding put
put_empty [] h = absurd (omega arith)
put_empty (y ∷ dest) h = (0 ∷ dest, refl, refl, refl)
