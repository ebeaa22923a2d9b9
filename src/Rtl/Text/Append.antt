-- ===== src/Rtl/Text/Append.antt =====
-- Where RtlAppendUnicodeStringToString writes.
use crescent.Common.{
  get_or, ◌==◌, ℕ, ◌+◌, ◌/◌, ◌%◌, ◌^◌, ◌≤◌, ◌<◌, ◌≡◌, refl, ap, sym, ◌∙◌, subst, arith, Bool, true,
  false, Option, none, some, List, ltb, leb, if◌then◌else◌, ◌>>=◌, length, take, take-take,
}
use crescent.Rtl.Text.{Text, units, append_text, copy_at, put, status_success}
use crescent.Rtl.Text.Access.{copy_at_fails, halves, copy_at_even, put_if}
use crescent.Rtl.Text.Places.{copy_at_places, put_if_places}
use crescent.Rtl.Text.Copy.{Fits}

abbrev success : Text → Option (Text × ℕ)
success d = some (d, status_success)

terminated :
    (b : Bool) (dest : Text) (len : ℕ) (xs ys : List ℕ)
    → (if b then put (len / 2) 0 xs else some xs) ≡ some ys
    → (if b
          then put (len / 2) 0 xs
            >>= (λ buffer. some (record dest { length = len; buffer = buffer }))
          else some (record dest { length = len; buffer = xs }))
        >>= success
      ≡ some (record dest { length = len; buffer = ys }, status_success)
terminated true dest len xs ys e = rw e refl
terminated false dest len xs ys e =
    ap (λ o. o >>= (λ zs. success (record dest { length = len; buffer = zs }))) e

append_text-eq :
    (dest src : Text) (xs ys : List ℕ)
    → (dest.length + src.length) % 2 ^ 16 ≡ dest.length + src.length
    → ltb dest.maximum_length (dest.length + src.length) ≡ false
    → copy_at dest.length src.length src.buffer dest.buffer ≡ some xs
    → (if leb (dest.length + src.length + 2) dest.maximum_length
        then put ((dest.length + src.length) / 2) 0 xs
        else some xs)
      ≡ some ys
    → append_text dest src
      ≡ some (record dest { length = dest.length + src.length; buffer = ys }, status_success)
unfolding append_text
append_text-eq dest src xs ys total ok e₁ e₂ =
    rw (ok, e₁, total)
      (terminated (leb (dest.length + src.length + 2) dest.maximum_length) dest
        (dest.length + src.length) xs ys e₂)

-- `RtlAppendUnicodeStringToString` writes the source at the character whose index is the length in
-- bytes. If the source fits the capacity behind the destination's text, the memory of both is as large
-- as their capacities, the destination is at least as long as the source, and its memory extends as
-- far as the write, the call reports success, and the text that results does not depend on the
-- source: it is memory behind the destination's text. The characters of the source stand in the memory from that index on,
-- but for one that the terminator may take the place of.
pub append_text_ignores :
    (dest src : Text)
    → Fits dest
    → Fits src
    → dest.length + src.length ≤ dest.maximum_length
    → src.length ≤ dest.length
    → dest.length + src.length / 2 ≤ length dest.buffer
    → (d : Text) × (append_text dest src ≡ some (d, status_success))
      × (units d ≡ take ((dest.length + src.length) / 2) dest.buffer)
      × ((j : ℕ)
          → j < src.length / 2
          → (dest.length + src.length) / 2 == dest.length + j ≡ false
          → get_or d.buffer (dest.length + j) 0 ≡ get_or src.buffer j 0)
append_text_ignores dest src fd fs fits shorter room =
    let (xs, e₁, len₁, front₁) =
      copy_at_even dest.length src.length src.buffer dest.buffer fs.even
        (omega (arith, fs.within, fs.room)) room in
    let (ys, e₂, len₂, front₂) =
      put_if (leb (dest.length + src.length + 2) dest.maximum_length)
        ((dest.length + src.length) / 2) ((dest.length + src.length) / 2) xs
        (λ b. ground (arith, fd.room, len₁)) (omega arith) in
    let total : (dest.length + src.length) % 2 ^ 16 ≡ dest.length + src.length =
      omega (arith, fd.small) in
    let ok : ltb dest.maximum_length (dest.length + src.length) ≡ false = ground arith in
    (
      record {
        length = dest.length + src.length;
        maximum_length = dest.maximum_length;
        buffer = ys;
      },
      append_text-eq dest src xs ys total ok e₁ e₂,
      front₂
          ∙ sym (take-take ((dest.length + src.length) / 2) dest.length xs (omega arith))
          ∙ ap (take ((dest.length + src.length) / 2)) front₁
          ∙ take-take ((dest.length + src.length) / 2) dest.length dest.buffer (omega arith),
      λ j h ne.
          put_if_places (leb (dest.length + src.length + 2) dest.maximum_length)
            ((dest.length + src.length) / 2) (dest.length + j) xs ys
            (λ b. ground (arith, fd.room, len₁)) e₂ ne
          ∙ copy_at_places dest.length src.length src.buffer dest.buffer xs fs.even
              (omega (arith, fs.within, fs.room)) room e₁ j h,
    )

-- If the memory behind a destination is shorter than its length in bytes plus the characters of the
-- source, `RtlAppendUnicodeStringToString` writes past it, although it has found room enough.
pub append_text_overruns :
    (dest src : Text)
    → Fits src
    → dest.length + src.length ≤ dest.maximum_length
    → 0 < src.length
    → length dest.buffer < dest.length + src.length / 2
    → append_text dest src ≡ none
unfolding append_text
append_text_overruns dest src fs fits some_text short =
    let ok : ltb dest.maximum_length (dest.length + src.length) ≡ false = ground arith in
    let e : copy_at dest.length src.length src.buffer dest.buffer ≡ none =
      subst (λ k. copy_at dest.length k src.buffer dest.buffer ≡ none)
        (sym (halves src.length fs.even))
        (copy_at_fails dest.length (src.length / 2) src.buffer dest.buffer (omega (arith, fs.even))
          short) in
    rw (ok, e) refl
