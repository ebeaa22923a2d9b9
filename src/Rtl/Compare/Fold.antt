-- ===== src/Rtl/Compare/Fold.antt =====
-- The conversions of case.
use crescent.Common.{◌≡◌, arith, ◌<◌, ◌^◌, ℕ}
use crescent.Rtl.Compare.{upcase, downcase}

-- To make a character a capital is stable, it undoes the other conversion, and it leaves a 16-bit
-- character one.
pub upcase_lem :
    (c : ℕ)
    → c < 2 ^ 16
    → (upcase (upcase c) ≡ upcase c)
      × (upcase (downcase c) ≡ upcase c)
      × (downcase (upcase c) ≡ downcase c)
      × (upcase c < 2 ^ 16)
      × (downcase c < 2 ^ 16)
unfolding upcase downcase
upcase_lem c small = (ground arith, ground arith, ground arith, ground arith, ground arith)
