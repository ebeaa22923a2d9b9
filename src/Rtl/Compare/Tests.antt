-- ===== src/Rtl/Compare/Tests.antt =====
-- The comparisons at concrete inputs.
use crescent.Common.{◌-◌, ◌≤◌, ◌<◌, ◌^◌, ◌≡◌, ◌↔◌, refl, arith, Bool, true, false, some, [], ◌∷◌}
use crescent.Rtl.Text.{Text}
use crescent.Rtl.Compare.{
  upcase, downcase, same, folding, equal_unicode, prefix_unicode, compare_unicode,
}
use crescent.Rtl.Compare.Order.{Readable, key, equal_unicode_lem, prefix_unicode_lem}
use crescent.Rtl.Compare.Reference.{reference, compare_unicode-reference}
use crescent.Rtl.Compare.Fold.{upcase_lem}

-- "Ab" and "aB".
abbrev first_text : Text
first_text = record { length = 4; maximum_length = 4; buffer = 65 ∷ 98 ∷ [] }

abbrev second_text : Text
second_text = record { length = 4; maximum_length = 4; buffer = 97 ∷ 66 ∷ [] }

first_text-Readable : Readable first_text
first_text-Readable = record { within = omega arith; units = (omega arith, (omega arith, tt)) }

second_text-Readable : Readable second_text
second_text-Readable = record { within = omega arith; units = (omega arith, (omega arith, tt)) }

equal_unicode_example :
    (r : Bool) × (equal_unicode first_text second_text true ≡ some r)
    × ((r ≡ true)
        ↔ ((first_text.length ≡ second_text.length) × (key true first_text ≡ key true second_text)))
equal_unicode_example =
    equal_unicode_lem first_text second_text true first_text-Readable second_text-Readable

differ_by_case : equal_unicode first_text second_text false ≡ some false
unfolding equal_unicode same folding
differ_by_case = refl

prefix_unicode_example :
    (r : Bool) × (prefix_unicode first_text second_text true ≡ some r)
    × ((r ≡ true) ↔ ((4 ≤ 4) × (key true first_text ≡ key true second_text)))
prefix_unicode_example =
    prefix_unicode_lem first_text second_text true first_text-Readable second_text-Readable

compare_unicode-reference_example :
    compare_unicode first_text second_text false ≡ some (reference false first_text second_text)
compare_unicode-reference_example =
    compare_unicode-reference first_text second_text false first_text-Readable second_text-Readable

-- "A" comes before "a", at a distance of 32.
goes_first : reference false first_text second_text ≡ 2 ^ 32 - 32
goes_first = refl

upcase_example :
    (upcase (upcase 97) ≡ upcase 97)
    × (upcase (downcase 97) ≡ upcase 97)
    × (downcase (upcase 97) ≡ downcase 97)
    × (upcase 97 < 2 ^ 16)
    × (downcase 97 < 2 ^ 16)
upcase_example = upcase_lem 97 (omega arith)
