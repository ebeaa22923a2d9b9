-- ===== src/Rtl/Text/Copy.antt =====
-- What RtlCopyUnicodeString leaves in the destination.
use crescent.Common.{
  ℕ, ◌+◌, ◌*◌, ◌/◌, ◌%◌, ◌^◌, ◌≤◌, ◌<◌, ◌≡◌, refl, sym, ◌∙◌, inl, inr, arith, some, List, leb,
  if◌then◌else◌, length, take, Bool-cases, bind_some, take-take, take-length, length-take,
}
use crescent.HzView.{HzView}
use crescent.Rtl.Text.{Text, units, copy, copy_bytes, put}
use crescent.Rtl.Text.Access.{copy_even, put_if}

-- The memory behind the pointer has at least the bytes that the lengths promise.
pub record Fits (s : Text) : Type 0 where
  pub even : s.length % 2 ≡ 0
  pub within : s.length ≤ s.maximum_length
  pub room : s.maximum_length ≤ 2 * length s.buffer
  pub small : s.maximum_length < 2 ^ 16

-- A result that keeps the capacity, and whose text is `text`.
abbrev pub Holds : Text → List ℕ → Text → Type 0
Holds dest text d =
    (units d ≡ text)
    × (d.maximum_length ≡ dest.maximum_length)
    × (length d.buffer ≡ length dest.buffer)
    × Fits d

copy-eq :
    (hz : HzView) (dest src : Text) (m : ℕ) (xs ys : List ℕ)
    → hz.lesser src.length dest.maximum_length ≡ m
    → copy_bytes m src.buffer dest.buffer ≡ some xs
    → (if leb (src.length + 2) dest.maximum_length then put (src.length / 2) 0 xs else some xs)
      ≡ some ys
    → copy hz dest (some src) ≡ some (record dest { length = m; buffer = ys })
unfolding copy
copy-eq hz dest src m xs ys e e₁ e₂ = rw (e, e₁) (bind_some _ ys _ e₂)

copy_n :
    (hz : HzView) (dest src : Text) (m : ℕ)
    → Fits dest
    → Fits src
    → hz.lesser src.length dest.maximum_length ≡ m
    → m % 2 ≡ 0
    → m ≤ src.length
    → m ≤ dest.maximum_length
    → (d : Text) × (copy hz dest (some src) ≡ some d) × Holds dest (take (m / 2) src.buffer) d
copy_n hz dest src m fd fs e even hs hd =
    let (xs, e₁, len₁, front₁) =
      copy_even m src.buffer dest.buffer even (omega (arith, fs.within, fs.room))
        (omega (arith, fd.room)) in
    let (ys, e₂, len₂, front₂) =
      put_if (leb (src.length + 2) dest.maximum_length) (src.length / 2) (m / 2) xs
        (λ b. ground (arith, fd.room, len₁)) (omega arith) in
    (
      record { length = m; maximum_length = dest.maximum_length; buffer = ys },
      copy-eq hz dest src m xs ys e e₁ e₂,
      (
        front₂ ∙ front₁,
        refl,
        len₂ ∙ len₁,
        record { even = even; within = hd; room = omega (arith, fd.room); small = fd.small },
      ),
    )

-- `RtlCopyUnicodeString` leaves in the destination as much of the source as fits, and its
-- capacity; it writes nothing past the memory. The capacity is even.
pub copy-Holds :
    (hz : HzView) (dest src : Text)
    → Fits dest
    → Fits src
    → dest.maximum_length % 2 ≡ 0
    → (d : Text) × (copy hz dest (some src) ≡ some d)
      × Holds dest (take (dest.maximum_length / 2) (units src)) d
copy-Holds hz dest src fd fs even = elim (Bool-cases (leb src.length dest.maximum_length)) [
  | inl b ↦
      let le : src.length ≤ dest.maximum_length = ground arith in
      let (d, e, (text, cap, len, fit)) =
        copy_n hz dest src src.length fd fs
          (hz.lesser_left src.length dest.maximum_length (ground arith)) fs.even (omega arith)
          (ground arith) in
      (
        d,
        e,
        (
          text
              ∙ sym (
                  take-length (dest.maximum_length / 2) (units src) (
                    omega
                      (arith, le, length-take (src.length / 2) src.buffer, fs.within, fs.room))),
          cap,
          len,
          fit,
        ),
      )
  | inr b ↦
      let (d, e, (text, cap, len, fit)) =
        copy_n hz dest src dest.maximum_length fd fs
          (hz.lesser_right src.length dest.maximum_length (ground arith)) even (ground arith)
          (omega arith) in
      (
        d,
        e,
        (
          text
              ∙ sym
                  (take-take (dest.maximum_length / 2) (src.length / 2) src.buffer (ground arith)),
          cap,
          len,
          fit,
        ),
      )
]
