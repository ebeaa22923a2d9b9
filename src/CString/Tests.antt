-- ===== src/CString/Tests.antt =====
-- The strings at concrete inputs.
use crescent.Common.{ℕ, ◌≤◌, ◌<◌, ◌≡◌, ◌⊎◌, refl, arith, some, List, [], ◌∷◌, map, length}
use crescent.HzView.{plain}
use crescent.CString.{strcat_s, strcmp, strncpy, wcsncpy_s, to_lower, einval, struncate, copy_units}
use crescent.CString.Strings.{IsText}
use crescent.CString.Order.{Compares, strcmp_lem, to_lower-IsValue}
use crescent.CString.Writes.{Gives, strcat_s_lem, strncpy_appends}
use crescent.Rtl.Text.{put, strlen}

-- "a" in memory for five characters, and "BC".
abbrev small_a : List ℕ
small_a = 97 ∷ 0 ∷ 7 ∷ 7 ∷ 7 ∷ []

abbrev large_bc : List ℕ
large_bc = 66 ∷ 67 ∷ 0 ∷ []

abbrev large_a : List ℕ
large_a = 65 ∷ 0 ∷ []

strcat_s_example :
    ((3 < 5) × Gives (strcat_s (some small_a) 5 (some large_bc)) 0 small_a (97 ∷ 66 ∷ 67 ∷ []))
    ⊎ (((1 < 5) × (5 ≤ 3) × Gives (strcat_s (some small_a) 5 (some large_bc)) einval small_a [])
        ⊎ ((5 ≤ 1) × Gives (strcat_s (some small_a) 5 (some large_bc)) einval small_a (97 ∷ [])))
strcat_s_example =
    strcat_s_lem small_a (97 ∷ []) large_bc (66 ∷ 67 ∷ []) 5 (refl, refl, refl)
      (refl, refl, (refl, refl, refl)) (omega arith)

strncpy_appends_example :
    (d : List ℕ) × (strncpy small_a large_bc 4 ≡ some d)
    × IsText d (97 ∷ 66 ∷ 67 ∷ [])
    × (length d ≡ 5)
strncpy_appends_example =
    strncpy_appends small_a (97 ∷ []) large_bc (66 ∷ 67 ∷ []) 4 (refl, refl, refl)
      (refl, refl, (refl, refl, refl)) (omega arith) (omega arith)

strcmp_example :
    Compares
      (strcmp to_lower small_a large_a)
      (strcmp to_lower large_a small_a)
      (map to_lower (97 ∷ []) ≡ map to_lower (65 ∷ []))
strcmp_example =
    strcmp_lem to_lower small_a large_a (97 ∷ []) (65 ∷ []) to_lower-IsValue
      (omega arith, (omega arith, (omega arith, (omega arith, (omega arith, tt)))))
      (omega arith, (omega arith, tt)) (refl, refl, refl) (refl, refl, refl)

-- A count of -1 loses the last character, although there is room.
all_loses_last :
    wcsncpy_s plain (some small_a) 5 (some large_bc) 0xFFFFFFFFFFFFFFFF
    ≡ some (some (66 ∷ 0 ∷ 7 ∷ 7 ∷ 7 ∷ []), struncate)
unfolding wcsncpy_s copy_units put strlen plain
all_loses_last = refl
