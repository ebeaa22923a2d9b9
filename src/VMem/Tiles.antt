-- ===== src/VMem/Tiles.antt =====
-- Segments that lie side by side, and what the writes to their hooks do to that.
use mathlib.Core.Option.{some-injective}
use crescent.Common.{
  ◌⊎◌, ℕ, ◌+◌, ◌≤◌, ◌≡◌, inl, inr, refl, sym, ap, ◌∙◌, subst, arith, true, false, some, List, [],
  ◌∷◌, ◌==◌, if◌then◌else◌, Bool-cases,
}
use crescent.HzFront.{count}
use crescent.VMem.Segments.{Segment, is_span, put, prev_of, unhook, hook_before}
-- The span says how large the arena is, and takes no room in it.
use crescent.VMem.Hooks.{Once, Once-tail, prev_of-on}

abbrev pub extent : Segment → ℕ
extent g = if is_span g.type then 0 else g.size

-- The segments of `l` fill the addresses from `b` up to `e`, in order; none is empty.
abbrev pub Tiles : (ℕ → Segment) → ℕ → List ℕ → ℕ → Type 0
Tiles f b [] e = b ≡ e
Tiles f b (p ∷ l) e = ((f p).base ≡ b) × (1 ≤ (f p).size) × Tiles f (b + extent (f p)) l e

-- The head of a tiling through a segment that equals another.
abbrev Heads : (ℕ → Segment) → ℕ → List ℕ → ℕ → Segment → Type 0
Heads f b l e g = (g.base ≡ b) × (1 ≤ g.size) × Tiles f (b + extent g) l e

pub put_self : (f : ℕ → Segment) (q p : ℕ) (g : Segment) → p == q ≡ true → put f q g p ≡ g
put_self f q p g e = rw e refl

pub put-other : (f : ℕ → Segment) (q p : ℕ) (g : Segment) → p == q ≡ false → put f q g p ≡ f p
put-other f q p g e = rw e refl

-- What is at `p` once `g` is written at `q`.
put-cases :
    (f : ℕ → Segment) (q p : ℕ) (g : Segment) (P : Segment → Type 0)
    → (p ≡ q → P g)
    → (p == q ≡ false → P (f p))
    → P (put f q g p)
put-cases f q p g P same other = elim (Bool-cases (p == q)) [
  | inl e ↦ subst P (sym (put_self f q p g e)) (same (ground arith))
  | inr e ↦ subst P (sym (put-other f q p g e)) (other e)
]

pub Tiles-put :
    (f : ℕ → Segment) (b : ℕ) (l : List ℕ) (e q : ℕ) (g : Segment)
    → count q l ≡ 0
    → Tiles f b l e
    → Tiles (put f q g) b l e
Tiles-put f b [] e q g off t = t
Tiles-put f b (p ∷ l) e q g off (at, some_room, t) =
    put-cases f q p g (Heads (put f q g) b l e) (λ same. absurd (ground arith))
      (λ ne. (at, some_room, Tiles-put f (b + extent (f p)) l e q g (ground arith) t))

-- A write that leaves a segment where it is.
pub Tiles-same :
    (f : ℕ → Segment) (b : ℕ) (l : List ℕ) (e q : ℕ) (g : Segment)
    → Once l
    → g.base ≡ (f q).base
    → g.size ≡ (f q).size
    → extent g ≡ extent (f q)
    → Tiles f b l e
    → Tiles (put f q g) b l e
Tiles-same f b [] e q g o same_base same_size same_extent t = t
Tiles-same f b (p ∷ l) e q g o same_base same_size same_extent (at, some_room, t) =
    put-cases f q p g (Heads (put f q g) b l e)
      (λ same. (
        same_base ∙ ap (λ k. (f k).base) (sym same) ∙ at,
        subst (λ n. 1 ≤ n) (ap (λ k. (f k).size) same ∙ sym same_size) some_room,
        Tiles-put f (b + extent g) l e q g (ground (arith, o p))
            (subst (λ n. Tiles f (b + n) l e) (ap (λ k. extent (f k)) same ∙ sym same_extent) t),
      ))
      (λ ne. (
        at,
        some_room,
        Tiles-same f (b + extent (f p)) l e q g (Once-tail p l o) same_base same_size same_extent t,
      ))

-- `q`, which follows `p`, becomes a part of it.
module _ (f : ℕ → Segment) (e p q : ℕ) (g : Segment) where
  abbrev pub Joins : ℕ → List ℕ → Type 0
  Joins b l = Once l → Tiles f b l e → Tiles (put f p g) b (unhook q l) e

  module _ (same_base : g.base ≡ (f p).base) (sum : g.size ≡ (f p).size + (f q).size)
      (sum_extent : extent g ≡ extent (f p) + extent (f q)) where
    join_heads : (b : ℕ) (l : List ℕ) → Joins b (p ∷ q ∷ l)
    unfolding unhook
    join_heads b l o (at, some_room, (q_at, q_room, t)) =
        subst (λ k. Tiles (put f p g) b k e) (sym (second (ground (arith, o q))))
          (put-cases f p p g (Heads (put f p g) b l e)
            (λ same. (
              same_base ∙ at,
              omega (arith, sum),
              Tiles-put f (b + extent g) l e p g (ground (arith, o p))
                  (subst (λ n. Tiles f n l e) (omega (arith, sum_extent)) t),
            ))
            (λ ne. absurd (ground arith)))
      where
        second : q == p ≡ false → unhook q (p ∷ q ∷ l) ≡ p ∷ l
        second apart = ground arith

    pub Tiles-join : (b : ℕ) (l : List ℕ) → prev_of q l ≡ some p → Joins b l
    unfolding prev_of unhook
    Tiles-join b [] prev = cc
    Tiles-join b (x ∷ []) prev = cc
    Tiles-join b (x ∷ y ∷ l) prev = elim (Bool-cases (q == y)) [
      | inl here ↦
          subst (λ k. Joins b (k ∷ y ∷ l)) (some-injective p x (ground arith))
            (subst (λ k. Joins b (p ∷ k ∷ l)) (ground arith) (join_heads b l))
      | inr later ↦ λ o (at, some_room, t).
          let rest : prev_of q (y ∷ l) ≡ some p = ground arith in
          let (p_on, q_on) = prev_of-on q p (y ∷ l) rest in
          subst (λ k. Tiles (put f p g) b k e) (sym (first (ground (arith, o q))))
            (put-cases f p x g (Heads (put f p g) b (unhook q (y ∷ l)) e)
              (λ same. absurd (ground (arith, o p)))
              (λ ne. (
                at,
                some_room,
                Tiles-join (b + extent (f x)) (y ∷ l) rest (Once-tail x (y ∷ l) o) t,
              )))
    ]
      where
        first : q == x ≡ false → unhook q (x ∷ y ∷ l) ≡ x ∷ unhook q (y ∷ l)
        first apart = rw apart refl

-- `gn` and `gp` share the room of `p`, in this order.
module _ (f : ℕ → Segment) (e p new : ℕ) (gn gp : Segment) where
  abbrev pub Hooks : ℕ → List ℕ → Type 0
  Hooks b l =
      Once l
      → count new l ≡ 0
      → Tiles f b l e
      → Tiles (put (put f new gn) p gp) b (hook_before p new l) e

  module _ (n_at : gn.base ≡ (f p).base) (p_at : gp.base ≡ gn.base + gn.size)
      (parts : gn.size + gp.size ≡ (f p).size) (n_room : 1 ≤ gn.size) (p_room : 1 ≤ gp.size)
      (n_all : extent gn ≡ gn.size) (p_all : extent gp ≡ gp.size)
      (all : extent (f p) ≡ (f p).size) where
    hook_head : (b : ℕ) (l : List ℕ) → Hooks b (p ∷ l)
    unfolding hook_before
    hook_head b l o fresh (at, some_room, t) =
        subst (λ k. Tiles h b k e) (sym two)
          (put-cases (put f new gn) p new gp (Heads h b (p ∷ l) e) (λ same. absurd (ground arith))
            (λ ne.
              put-cases f new new gn (Heads h b (p ∷ l) e)
                (λ same. (
                  n_at ∙ at,
                  n_room,
                  put-cases (put f new gn) p p gp (Heads h (b + extent gn) l e)
                      (λ same. (omega (arith, p_at, n_at, at, n_all), p_room, rest))
                      (λ ne. absurd (ground arith)),
                ))
                (λ ne. absurd (ground arith))))
      where
        h : ℕ → Segment
        h = put (put f new gn) p gp

        two : hook_before p new (p ∷ l) ≡ new ∷ p ∷ l
        two = ground arith

        rest : Tiles h (b + extent gn + extent gp) l e
        rest = Tiles-put (put f new gn) (b + extent gn + extent gp) l e p gp (ground (arith, o p)) (
            Tiles-put f (b + extent gn + extent gp) l e new gn (ground arith)
              (subst (λ n. Tiles f n l e) (omega (arith, n_all, p_all, all, parts)) t))

    pub Tiles-hook : (b : ℕ) (l : List ℕ) → 1 ≤ count p l → Hooks b l
    unfolding hook_before
    Tiles-hook b [] on = absurd (omega arith)
    Tiles-hook b (x ∷ l) on = elim (Bool-cases (p == x)) [
      | inl here ↦ subst (λ k. Hooks b (k ∷ l)) (ground arith) (hook_head b l)
      | inr later ↦ λ o fresh (at, some_room, t).
          subst (λ k. Tiles (put (put f new gn) p gp) b k e) (sym (first later))
            (put-cases (put f new gn) p x gp
              (Heads (put (put f new gn) p gp) b (hook_before p new l) e)
              (λ same. absurd (ground arith))
              (λ ne.
                put-cases f new x gn (Heads (put (put f new gn) p gp) b (hook_before p new l) e)
                  (λ same. absurd (ground arith))
                  (λ ne. (
                    at,
                    some_room,
                    Tiles-hook (b + extent (f x)) l (ground arith) (Once-tail x l o) (ground arith)
                        t,
                  ))))
    ]
      where
        first : p == x ≡ false → hook_before p new (x ∷ l) ≡ x ∷ hook_before p new l
        first apart = rw apart refl

-- A tiling ends after each of its segments.
pub Tiles-from : (f : ℕ → Segment) (b : ℕ) (l : List ℕ) (e : ℕ) → Tiles f b l e → b ≤ e
Tiles-from f b [] e t = omega (arith, t)
Tiles-from f b (x ∷ l) e (at, some_room, t) = omega (arith, Tiles-from f (b + extent (f x)) l e t)

pub Tiles-room :
    (f : ℕ → Segment) (b : ℕ) (l : List ℕ) (e p : ℕ)
    → Tiles f b l e
    → 1 ≤ count p l
    → (b ≤ (f p).base) × ((f p).base + extent (f p) ≤ e) × (1 ≤ (f p).size)
Tiles-room f b [] e p t on = absurd (omega arith)
Tiles-room f b (x ∷ l) e p (at, some_room, t) on = elim (Bool-cases (p == x)) [
  | inl here ↦
      subst (λ k. (b ≤ (f k).base) × ((f k).base + extent (f k) ≤ e) × (1 ≤ (f k).size))
        (sym (ground arith))
        (omega (arith, at), omega (arith, at, Tiles-from f (b + extent (f x)) l e t), some_room)
  | inr later ↦
      let (lower, upper, room) = Tiles-room f (b + extent (f x)) l e p t (ground arith) in
      (omega arith, upper, room)
]

pub Tiles-next :
    (f : ℕ → Segment) (b : ℕ) (l : List ℕ) (e p q : ℕ)
    → Tiles f b l e
    → prev_of q l ≡ some p
    → (f q).base ≡ (f p).base + extent (f p)
unfolding prev_of
Tiles-next f b [] e p q t prev = cc
Tiles-next f b (x ∷ []) e p q t prev = cc
Tiles-next f b (x ∷ y ∷ l) e p q (at, some_room, t) prev = elim (Bool-cases (q == y)) [
  | inl here ↦
      subst (λ k. (f k).base ≡ (f p).base + extent (f p)) (sym (ground arith))
        (subst (λ k. (f y).base ≡ (f k).base + extent (f k)) (some-injective x p (ground arith))
          (omega (arith, at, t.0)))
  | inr later ↦ Tiles-next f (b + extent (f x)) (y ∷ l) e p q t (ground arith)
]

-- Two segments of a tiling do not overlap.
pub Tiles-apart :
    (f : ℕ → Segment) (b : ℕ) (l : List ℕ) (e p q : ℕ)
    → Tiles f b l e
    → 1 ≤ count p l
    → 1 ≤ count q l
    → p == q ≡ false
    → ((f p).base + extent (f p) ≤ (f q).base) ⊎ ((f q).base + extent (f q) ≤ (f p).base)
Tiles-apart f b [] e p q t on on' ne = absurd (omega arith)
Tiles-apart f b (x ∷ l) e p q (at, some_room, t) on on' ne = elim (Bool-cases (p == x)) [
  | inl here ↦
      let later : 1 ≤ count q l = ground arith in
      let room = Tiles-room f (b + extent (f x)) l e q t later in
      let same : p ≡ x = ground arith in
      inl
        (subst (λ k. (f k).base + extent (f k) ≤ (f q).base) (sym same) (omega (arith, at, room.0)))
  | inr off ↦ elim (Bool-cases (q == x)) [
    | inl here ↦
        let later : 1 ≤ count p l = ground arith in
        let room = Tiles-room f (b + extent (f x)) l e p t later in
        let same : q ≡ x = ground arith in
        inr (
          subst (λ k. (f k).base + extent (f k) ≤ (f p).base) (sym same)
            (omega (arith, at, room.0)))
    | inr off' ↦ Tiles-apart f (b + extent (f x)) l e p q t (ground arith) (ground arith) ne
  ]
]
