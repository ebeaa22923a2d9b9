-- ===== src/Rtl/Text/Tests.antt =====
-- The copies of strings at concrete inputs.
use crescent.Common.{ℕ, ◌+◌, ◌<◌, false, ◌==◌, get_or, ◌≡◌, refl, arith, none, some, [], ◌∷◌}
use crescent.HzView.{plain}
use crescent.Rtl.Text.{Text, units, copy, append_text, status_success}
use crescent.Rtl.Text.Copy.{Fits, Holds, copy-Holds}
use crescent.Rtl.Text.Append.{append_text_ignores, append_text_overruns}

-- "AB" with room for two more characters, in memory for more.
abbrev two_letters : Text
two_letters = record { length = 4; maximum_length = 8; buffer = 65 ∷ 66 ∷ 67 ∷ 68 ∷ 69 ∷ 70 ∷ [] }

abbrev one_letter : Text
one_letter = record { length = 2; maximum_length = 4; buffer = 90 ∷ 0 ∷ [] }

abbrev full_memory : Text
full_memory = record { length = 4; maximum_length = 8; buffer = 65 ∷ 66 ∷ 0 ∷ 0 ∷ [] }

two_letters-Fits : Fits two_letters
two_letters-Fits = record {
  even = refl;
  within = omega arith;
  room = omega arith;
  small = omega arith;
}

one_letter-Fits : Fits one_letter
one_letter-Fits = record {
  even = refl;
  within = omega arith;
  room = omega arith;
  small = omega arith;
}

copy-Holds_example :
    (d : Text) × (copy plain one_letter (some two_letters) ≡ some d)
    × Holds one_letter (65 ∷ 66 ∷ []) d
copy-Holds_example = copy-Holds plain one_letter two_letters one_letter-Fits two_letters-Fits refl

append_text_ignores_example :
    (d : Text) × (append_text two_letters one_letter ≡ some (d, status_success))
    × (units d ≡ 65 ∷ 66 ∷ 67 ∷ [])
    × ((j : ℕ)
        → j < 1
        → 3 == 4 + j ≡ false
        → get_or d.buffer (4 + j) 0 ≡ get_or one_letter.buffer j 0)
append_text_ignores_example =
    append_text_ignores two_letters one_letter two_letters-Fits one_letter-Fits (omega arith)
      (omega arith) (omega arith)

append_text_overruns_example : append_text full_memory one_letter ≡ none
append_text_overruns_example =
    append_text_overruns full_memory one_letter one_letter-Fits (omega arith) (omega arith)
      (omega arith)
