-- ===== src/Rtl/Number/Tests.antt =====
-- Numbers as text at concrete inputs.
use crescent.Common.{◌≡◌, refl, inr, arith, some, [], ◌∷◌}
use crescent.HzView.{plain}
use crescent.Rtl.Text.{Text, status_success}
use crescent.Rtl.Number.{
  integer_to_text, text_to_integer, to_digits, digits, find_base, parse_signed, parse_digits,
  parse_low, skip_spaces,
}
use crescent.Rtl.Number.RoundTrip.{ReadsBack, integer_round_trip}

-- Room for four characters.
abbrev short_text : Text
short_text = record { length = 0; maximum_length = 10; buffer = 0 ∷ 0 ∷ 0 ∷ 0 ∷ 0 ∷ [] }

integer_round_trip_example :
    ReadsBack plain 0xBEEF 16 short_text (integer_to_text 0xBEEF 16 short_text)
integer_round_trip_example =
    integer_round_trip plain 0xBEEF 16 short_text (inr (inr (inr refl))) (omega arith) (omega arith)

beef : to_digits 0xBEEF 16 ≡ some (66 ∷ 69 ∷ 69 ∷ 70 ∷ [])
unfolding to_digits digits
beef = refl

-- " -0x10" is not read as a number with a prefix: the spaces come first.
spaces_hide_prefix :
    text_to_integer plain
      (some (record { length = 8; maximum_length = 8; buffer = 32 ∷ 48 ∷ 120 ∷ 49 ∷ [] }))
      0
    ≡ (some 0, status_success)
unfolding text_to_integer find_base parse_signed parse_digits parse_low skip_spaces plain
spaces_hide_prefix = refl
