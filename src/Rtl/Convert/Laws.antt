-- ===== src/Rtl/Convert/Laws.antt =====
-- What the conversions between the two kinds of strings give, and that they undo each other.
use crescent.Common.{
  ℕ, zero, suc, ◌+◌, ◌*◌, ◌/◌, ◌%◌, ◌^◌, ◌≤◌, ◌<◌, ◌≡◌, refl, ap, sym, ◌∙◌, subst, inl, inr, ◌⊎◌,
  arith, Bool, true, false, Option, none, some, List, [], ◌∷◌, map, ltb, length, take, Bool-cases,
  Option-cases,
}
use mathlib.Core.Option.{some-injective}
use crescent.Rtl.Text.{
  Text, units, chars, put, status_success, status_buffer_overflow, status_no_memory,
}
use crescent.Rtl.Text.Access.{Writes, put_lem}
use crescent.Rtl.Convert.{convert, widen, narrow, fill_text, ansi_to_unicode, unicode_to_ansi}

convert_lem :
    (f : ℕ → ℕ) (n : ℕ) (src dest : List ℕ)
    → n ≤ length src
    → n ≤ length dest
    → Writes (convert f n src dest) (length dest) n (map f (take n src))
unfolding convert
convert_lem f zero src dest hs hd = (dest, refl, refl, refl)
convert_lem f (suc n) [] dest hs hd = absurd (omega arith)
convert_lem f (suc n) (x ∷ src) [] hs hd = absurd (omega arith)
convert_lem f (suc n) (x ∷ src) (y ∷ dest) hs hd =
    let (ys, e, len, front) = convert_lem f n src dest (omega arith) (omega arith) in
    (f x ∷ ys, rw e refl, ap suc len, ap (λ l. f x ∷ l) front)

-- A string whose first `n` characters are `text`, with room for a terminator.
abbrev pub Filled : ℕ → ℕ → List ℕ → Text → Type 0
Filled n width text d =
    (take n d.buffer ≡ text) × (d.length ≡ n * width % 2 ^ 16) × (n < length d.buffer)

fill_text_lem :
    (f : ℕ → ℕ) (width n : ℕ) (src : List ℕ) (dest : Text)
    → n ≤ length src
    → n < length dest.buffer
    → (d : Text) × (fill_text f width n src dest ≡ some (d, status_success))
      × Filled n width (map f (take n src)) d
unfolding fill_text
fill_text_lem f width n src dest hs hd =
    let (xs, e₁, len₁, front₁) = convert_lem f n src dest.buffer hs (omega arith) in
    let (ys, e₂, len₂, front₂) = put_lem n n 0 xs (omega (arith, len₁)) (omega arith) in
    (
      record dest { length = n * width % 2 ^ 16; buffer = ys },
      both xs ys e₁ e₂,
      (front₂ ∙ front₁, refl, omega (arith, len₁, len₂)),
    )
  where
    both :
        (xs ys : List ℕ)
        → convert f n src dest.buffer ≡ some xs
        → put n 0 xs ≡ some ys
        → fill_text f width n src dest
          ≡ some (record dest { length = n * width % 2 ^ 16; buffer = ys }, status_success)
    both xs ys e₁ e₂ = rw (e₁, e₂) refl

-- The outcomes of a conversion of `n` characters into `dest`.
abbrev pub Converts :
    (ℕ → Option (List ℕ)) → ℕ → ℕ → ℕ → List ℕ → Text → Bool → Option (Text × ℕ) → Type 0
Converts kmalloc size n width text dest allocate r =
    (d : Text) × (((r ≡ some (d, status_success)) × Filled n width text d)
      ⊎ (((r ≡ some (d, status_buffer_overflow))
            × (allocate ≡ false)
            × (d ≡ dest)
            × (dest.maximum_length < size))
          ⊎ ((r ≡ some (d, status_no_memory)) × (allocate ≡ true) × (kmalloc size ≡ none))))

module _ (kmalloc : ℕ → Option (List ℕ)) where
  ansi_to_unicode-none :
      (dest src : Text)
      → kmalloc ((src.length + 1) * 2) ≡ none
      → ansi_to_unicode kmalloc dest src true ≡ some (record dest { buffer = [] }, status_no_memory)
  unfolding ansi_to_unicode
  ansi_to_unicode-none dest src e = rw (e, ansi_to_unicode) refl

  ansi_to_unicode-some :
      (dest src : Text) (m : List ℕ)
      → kmalloc ((src.length + 1) * 2) ≡ some m
      → ansi_to_unicode kmalloc dest src true
        ≡ fill_text widen 2
            (src.length)
            src.buffer
            (record dest { buffer = m; maximum_length = ((src.length + 1) * 2) % 2 ^ 16 })
  unfolding ansi_to_unicode
  ansi_to_unicode-some dest src m e = rw (e, ansi_to_unicode) refl

  -- `RtlAnsiStringToUnicodeString` converts each character and terminates the text, or refuses a
  -- destination that is too small and leaves it, or finds no memory. It accesses nothing outside
  -- of the buffers, where `kmalloc` finds as much memory as it is asked for.
  pub ansi_to_unicode_lem :
      (dest src : Text) (allocate : Bool)
      → ((n : ℕ) (m : List ℕ) → kmalloc n ≡ some m → n ≤ 2 * length m)
      → src.length ≤ length src.buffer
      → dest.maximum_length ≤ 2 * length dest.buffer
      → Converts kmalloc
          ((src.length + 1) * 2)
          (src.length)
          2
          (map widen (chars src))
          dest
          allocate
          (ansi_to_unicode kmalloc dest src allocate)
  unfolding ansi_to_unicode
  ansi_to_unicode_lem dest src true large hs hd =
      elim (Option-cases (kmalloc ((src.length + 1) * 2))) [
        | inl e ↦
            (record dest { buffer = [] }, inr (inr (ansi_to_unicode-none dest src e, refl, e)))
        | inr (m, e) ↦
            let (d, found, filled) =
              fill_text_lem widen 2 (src.length) src.buffer
                (record dest { buffer = m; maximum_length = ((src.length + 1) * 2) % 2 ^ 16 }) hs
                (omega (arith, large ((src.length + 1) * 2) m e)) in
            (d, inl (ansi_to_unicode-some dest src m e ∙ found, filled))
      ]
  ansi_to_unicode_lem dest src false large hs hd =
      elim (Bool-cases (ltb dest.maximum_length ((src.length + 1) * 2))) [
        | inl e ↦ (dest, inr (inl (rw e refl, refl, refl, ground arith)))
        | inr e ↦
            let (d, found, filled) =
              fill_text_lem widen 2 (src.length) src.buffer dest hs (ground arith) in
            (d, inl (rw e found, filled))
      ]

module _ (kmalloc : ℕ → Option (List ℕ)) where
  unicode_to_ansi-none :
      (dest src : Text)
      → kmalloc (src.length / 2 + 1) ≡ none
      → unicode_to_ansi kmalloc dest src true ≡ some (record dest { buffer = [] }, status_no_memory)
  unfolding unicode_to_ansi
  unicode_to_ansi-none dest src e = rw (e, unicode_to_ansi) refl

  unicode_to_ansi-some :
      (dest src : Text) (m : List ℕ)
      → kmalloc (src.length / 2 + 1) ≡ some m
      → unicode_to_ansi kmalloc dest src true
        ≡ fill_text narrow 1
            (src.length / 2)
            src.buffer
            (record dest { buffer = m; maximum_length = (src.length / 2 + 1) % 2 ^ 16 })
  unfolding unicode_to_ansi
  unicode_to_ansi-some dest src m e = rw (e, unicode_to_ansi) refl

  -- The same of `RtlUnicodeStringToAnsiString`.
  pub unicode_to_ansi_lem :
      (dest src : Text) (allocate : Bool)
      → ((n : ℕ) (m : List ℕ) → kmalloc n ≡ some m → n ≤ length m)
      → src.length / 2 ≤ length src.buffer
      → dest.maximum_length ≤ length dest.buffer
      → Converts kmalloc
          (src.length / 2 + 1)
          (src.length / 2)
          1
          (map narrow (units src))
          dest
          allocate
          (unicode_to_ansi kmalloc dest src allocate)
  unfolding unicode_to_ansi
  unicode_to_ansi_lem dest src true large hs hd =
      elim (Option-cases (kmalloc (src.length / 2 + 1))) [
        | inl e ↦
            (record dest { buffer = [] }, inr (inr (unicode_to_ansi-none dest src e, refl, e)))
        | inr (m, e) ↦
            let (d, found, filled) =
              fill_text_lem narrow 1 (src.length / 2) src.buffer
                (record dest { buffer = m; maximum_length = (src.length / 2 + 1) % 2 ^ 16 }) hs
                (omega (arith, large (src.length / 2 + 1) m e)) in
            (d, inl (unicode_to_ansi-some dest src m e ∙ found, filled))
      ]
  unicode_to_ansi_lem dest src false large hs hd =
      elim (Bool-cases (ltb dest.maximum_length (src.length / 2 + 1))) [
        | inl e ↦ (dest, inr (inl (rw e refl, refl, refl, ground arith)))
        | inr e ↦
            let (d, found, filled) =
              fill_text_lem narrow 1 (src.length / 2) src.buffer dest hs (ground arith) in
            (d, inl (rw e found, filled))
      ]

Converts-success :
    (kmalloc : ℕ → Option (List ℕ)) (size n width : ℕ) (text : List ℕ) (dest d : Text)
    (allocate : Bool) (r : Option (Text × ℕ))
    → Converts kmalloc size n width text dest allocate r
    → r ≡ some (d, status_success)
    → Filled n width text d
Converts-success kmalloc size n width text dest d allocate r (d', inl (e, filled)) h =
    subst (Filled n width text) (ap (λ p. p.0) (some-injective _ _ (sym e ∙ h))) filled
Converts-success kmalloc size n width text dest d allocate r (d', inr (inl (e, _, _, _))) h =
    let clash : status_buffer_overflow ≡ status_success =
      ap (λ p. p.1) (some-injective _ _ (sym e ∙ h)) in
    absurd (omega arith)
Converts-success kmalloc size n width text dest d allocate r (d', inr (inr (e, _, _))) h =
    let clash : status_no_memory ≡ status_success =
      ap (λ p. p.1) (some-injective _ _ (sym e ∙ h)) in
    absurd (omega arith)

-- Characters of 8 bits.
abbrev pub AllBytes : List ℕ → Type 0
AllBytes [] = Unit {0}
AllBytes (c ∷ l) = (c < 256) × AllBytes l

narrow-widen : (c : ℕ) → c < 256 → narrow (widen c) ≡ c
narrow-widen c h = ground arith

map-narrow-widen : (n : ℕ) (l : List ℕ) → AllBytes l → map narrow (map widen (take n l)) ≡ take n l
map-narrow-widen zero l h = refl
map-narrow-widen (suc n) [] h = refl
map-narrow-widen (suc n) (c ∷ l) (hc, hl) =
    ap (λ k. k ∷ map narrow (map widen (take n l))) (narrow-widen c hc)
    ∙ ap (λ k. c ∷ k) (map-narrow-widen n l hl)

-- An ANSI_STRING of less than 2 ^ 15 bytes that is converted to a UNICODE_STRING and back, each
-- time with success, has the same characters and length, whatever its bytes are.
pub ansi_round_trip :
    (kmalloc kmalloc' : ℕ → Option (List ℕ))
    → ((n : ℕ) (m : List ℕ) → kmalloc n ≡ some m → n ≤ 2 * length m)
    → ((n : ℕ) (m : List ℕ) → kmalloc' n ≡ some m → n ≤ length m)
    → (src dest dest' u d : Text) (allocate allocate' : Bool) → src.length < 2 ^ 15
    → src.length ≤ length src.buffer
    → AllBytes src.buffer
    → dest.maximum_length ≤ 2 * length dest.buffer
    → dest'.maximum_length ≤ length dest'.buffer
    → ansi_to_unicode kmalloc dest src allocate ≡ some (u, status_success)
    → unicode_to_ansi kmalloc' dest' u allocate' ≡ some (d, status_success)
    → (chars d ≡ chars src) × (d.length ≡ src.length)
ansi_round_trip kmalloc kmalloc' large large' src dest dest' u d al al' small hs bytes hd hd' e e' =
    let (text, len, room) =
      Converts-success kmalloc _ _ _ _ _ _ _ _ (ansi_to_unicode_lem kmalloc dest src al large hs hd)
        e in
    let half : u.length / 2 ≡ src.length = omega (arith, len) in
    let (text', len', room') =
      Converts-success kmalloc' _ _ _ _ _ _ _ _
        (unicode_to_ansi_lem kmalloc' dest' u al' large' (omega (arith, half, room)) hd') e' in
    let same : d.length ≡ src.length = omega (arith, len', half) in
    (
      ap (λ n. take n d.buffer) (omega (arith, len', half))
          ∙ text'
          ∙ ap (λ n. map narrow (take n u.buffer)) half
          ∙ ap (map narrow) text
          ∙ map-narrow-widen src.length src.buffer bytes,
      same,
    )
