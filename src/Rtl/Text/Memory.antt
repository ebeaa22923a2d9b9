-- ===== src/Rtl/Text/Memory.antt =====
-- Memory as a list of characters, with accesses that fail past its end.
use crescent.Common.{
  ℕ, zero, suc, ◌+◌, ◌*◌, ◌/◌, ◌%◌, Option, none, some, List, [], ◌∷◌, ◌==◌, if◌then◌else◌, ◌>>=◌,
}

-- `memcpy` of `n` bytes between buffers of 16-bit characters; the last character takes only its
-- low byte if `n` is odd.
unfoldable pub copy_bytes : ℕ → List ℕ → List ℕ → Option (List ℕ)
copy_bytes zero src dest = some dest
copy_bytes (suc zero) (x ∷ src) (y ∷ dest) = some ((y / 256 * 256 + x % 256) ∷ dest)
copy_bytes (suc (suc n)) (x ∷ src) (y ∷ dest) = do rest ← copy_bytes n src dest; some (x ∷ rest)
copy_bytes (suc n) src dest = none

-- The same to a character index of the destination.
unfoldable pub copy_at : ℕ → ℕ → List ℕ → List ℕ → Option (List ℕ)
copy_at zero n src dest = copy_bytes n src dest
copy_at (suc i) n src [] = none
copy_at (suc i) n src (y ∷ dest) = do rest ← copy_at i n src dest; some (y ∷ rest)

unfoldable pub put : ℕ → ℕ → List ℕ → Option (List ℕ)
put i v [] = none
put zero v (x ∷ xs) = some (v ∷ xs)
put (suc i) v (x ∷ xs) = do rest ← put i v xs; some (x ∷ rest)

-- `strlen` and `wcslen`; memory without a terminator is read past its end.
unfoldable pub strlen : List ℕ → Option ℕ
strlen [] = none
strlen (x ∷ xs) = let rest = strlen xs in if x == 0 then some 0 else (do n ← rest; some (suc n))
