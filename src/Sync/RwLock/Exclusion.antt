-- ===== src/Sync/RwLock/Exclusion.antt =====
-- Mutual exclusion where only one thread asks for the lock as a writer.
use crescent.Common.{
  ℕ, zero, suc, ◌+◌, ◌^◌, ◌≤◌, ◌<◌, ◌≡◌, refl, ap, sym, ◌∙◌, subst, inl, inr, ◌⊎◌, arith, Bool,
  some, List, [], ◌∷◌, get_elem?, set, sum_by, sum_by-set, length, length-set, replicate,
  length-replicate,
}
use mathlib.Core.Option.{some-injective}
use crescent.Sync.RwLock.{
  Pc, idle, acquire_exclusive, mark, wait_readers, writing, release_exclusive, acquire_shared,
  wait_writer, join_readers, reading, release_shared, try_convert, convert, exclusive, shared,
  leave_exclusive, leave_shared, try, accesses, calls, Lock, Step, Call, access, run, reader_mask,
  readers, is_reader, is_writer, unlocked,
}

-- Whether a thread is in a function that makes it the writer.
abbrev pub seeks_write : Pc → ℕ
seeks_write acquire_exclusive = 1
seeks_write (mark value) = 1
seeks_write (wait_readers value) = 1
seeks_write writing = 1
seeks_write release_exclusive = 1
seeks_write try_convert = 1
seeks_write (convert value) = 1
seeks_write _ = 0

-- The word for `w` writers and `r` readers inside.
pub record Tells (w r word : ℕ) : Type 0 where
  pub one : w ≤ 1
  pub free : w ≡ 0 → readers word ≡ r
  pub held : w ≡ 1 → (word ≡ reader_mask) × (r ≡ 0)
  pub fits : word < 2 ^ 32

-- An access of a thread beside `w` writers and `r` readers.
access-Tells :
    (weak : Bool) (pc : Pc) (w r word : ℕ)
    → seeks_write pc ≡ 0 ⊎ w ≡ 0
    → r + 1 < reader_mask
    → Tells (w + is_writer pc) (r + is_reader pc) word
    → let (pc', word') = access weak pc word in Tells (w + is_writer pc') (r + is_reader pc') word'
unfolding access
access-Tells weak idle w r word kind few v = v
access-Tells weak acquire_exclusive w r word kind few v =
    ground (arith, v.one, v.free, v.held, v.fits)
access-Tells weak (mark value) w r word kind few v = ground (arith, v.one, v.free, v.held, v.fits)
access-Tells weak (wait_readers value) w r word kind few v =
    ground (arith, v.one, v.free, v.held, v.fits)
access-Tells weak writing w r word kind few v = v
access-Tells weak release_exclusive w r word kind few v =
    ground (arith, v.one, v.free, v.held, v.fits)
access-Tells weak acquire_shared w r word kind few v = ground (arith, v.one, v.free, v.held, v.fits)
access-Tells weak wait_writer w r word kind few v = ground (arith, v.one, v.free, v.held, v.fits)
access-Tells weak (join_readers value) w r word kind few v =
    ground (arith, v.one, v.free, v.held, v.fits)
access-Tells weak reading w r word kind few v = v
access-Tells weak release_shared w r word kind few v = ground (arith, v.one, v.free, v.held, v.fits)
access-Tells weak try_convert w r word kind few v = ground (arith, v.one, v.free, v.held, v.fits)
access-Tells weak (convert value) w r word kind few v =
    ground (arith, v.one, v.free, v.held, v.fits)

is_reader-le : (pc : Pc) → is_reader pc ≤ 1
is_reader-le pc = ground arith

is_writer-le : (pc : Pc) → is_writer pc ≤ seeks_write pc
is_writer-le pc = ground arith

sum_reader-le : (l : List Pc) → sum_by is_reader l ≤ length l
sum_reader-le [] = omega arith
sum_reader-le (x ∷ l) = omega (arith, sum_reader-le l, is_reader-le x)

sum_writer-le : (l : List Pc) → sum_by is_writer l ≤ sum_by seeks_write l
sum_writer-le [] = omega arith
sum_writer-le (x ∷ l) = omega (arith, sum_writer-le l, is_writer-le x)

-- The threads that may not write.
abbrev pub seekers : List Pc → ℕ
seekers [] = 0
seekers (first ∷ others) = sum_by seeks_write others

seekers-kind :
    (l : List Pc) (t : ℕ) (pc : Pc) (o : ℕ)
    → get_elem? l t ≡ some pc
    → seekers l ≡ 0
    → sum_by is_writer l ≡ o + is_writer pc
    → seeks_write pc ≡ 0 ⊎ o ≡ 0
seekers-kind [] t pc o at none_seek now = absurd (cc)
seekers-kind (x ∷ l) zero pc o at none_seek now =
    inr (omega (arith, sum_writer-le l, ap is_writer (some-injective x pc at)))
seekers-kind (x ∷ l) (suc t) pc o at none_seek now =
    let (o', now', later) = sum_by-set seeks_write l t pc at in inl (omega (arith, now'))

seekers-set :
    (l : List Pc) (t : ℕ) (pc pc' : Pc)
    → get_elem? l t ≡ some pc
    → seekers l ≡ 0
    → (t ≡ 0) ⊎ (seeks_write pc ≡ 0 → seeks_write pc' ≡ 0)
    → seekers (set l t pc') ≡ 0
seekers-set [] t pc pc' at none_seek may = absurd (cc)
seekers-set (x ∷ l) zero pc pc' at none_seek may = none_seek
seekers-set (x ∷ l) (suc t) pc pc' at none_seek (inl e) = absurd (omega arith)
seekers-set (x ∷ l) (suc t) pc pc' at none_seek (inr keeps) =
    let (o, now, later) = sum_by-set seeks_write l t pc at in
    let quiet : seeks_write pc ≡ 0 = omega (arith, now) in
    omega (arith, now, later pc', keeps quiet)

access-seeks :
    (weak : Bool) (pc : Pc) (word : ℕ)
    → seeks_write pc ≡ 0
    → seeks_write (access weak pc word).0 ≡ 0
unfolding access
access-seeks weak pc word h = ground arith

-- The lock with `n` threads, of which only the first may become the writer.
pub record IsExclusive (n : ℕ) (s : Lock) : Type 0 where
  pub tells : Tells (sum_by is_writer s.pcs) (sum_by is_reader s.pcs) s.word
  pub others : seekers s.pcs ≡ 0
  pub size : length s.pcs ≡ n

-- No thread but the first calls a function to become the writer.
abbrev pub Permitted : {s s' : Lock} → Step s s' → Type 0
Permitted (accesses t pc weak at) = Unit {0}
Permitted (calls t pc pc' at call) = (t ≡ 0) ⊎ (seeks_write pc' ≡ 0)

set-IsExclusive :
    (n : ℕ) (s : Lock) (t : ℕ) (pc pc' : Pc) (word : ℕ)
    → IsExclusive n s
    → get_elem? s.pcs t ≡ some pc
    → (t ≡ 0) ⊎ (seeks_write pc ≡ 0 → seeks_write pc' ≡ 0)
    → ((w r : ℕ)
        → seeks_write pc ≡ 0 ⊎ w ≡ 0
        → r + 1 ≤ n
        → Tells (w + is_writer pc) (r + is_reader pc) s.word
        → Tells (w + is_writer pc') (r + is_reader pc') word)
    → IsExclusive n (record { word = word; pcs = set s.pcs t pc' })
set-IsExclusive n s t pc pc' word v at may tell =
    let (w, w_now, w_later) = sum_by-set is_writer s.pcs t pc at in
    let (r, r_now, r_later) = sum_by-set is_reader s.pcs t pc at in
    let few : r + 1 ≤ n = omega (
      arith,
      r_later reading,
      sum_reader-le (set s.pcs t reading),
      length-set s.pcs t reading,
      v.size,
    ) in
    let before : Tells (w + is_writer pc) (r + is_reader pc) s.word =
      subst (λ k. Tells k (r + is_reader pc) s.word) w_now
        (subst (λ k. Tells (sum_by is_writer s.pcs) k s.word) r_now v.tells) in
    let after = tell w r (seekers-kind s.pcs t pc w at v.others w_now) few before in
    record {
      tells =
          subst (λ k. Tells (sum_by is_writer (set s.pcs t pc')) k word) (sym (r_later pc'))
            (subst (λ k. Tells k (r + is_reader pc') word) (sym (w_later pc')) after);
      others = seekers-set s.pcs t pc pc' at v.others may;
      size = length-set s.pcs t pc' ∙ v.size;
    }

Call-Tells :
    (pc pc' : Pc) (w r word : ℕ)
    → Call pc pc'
    → Tells (w + is_writer pc) (r + is_reader pc) word
    → Tells (w + is_writer pc') (r + is_reader pc') word
Call-Tells pc pc' w r word exclusive v = v
Call-Tells pc pc' w r word shared v = v
Call-Tells pc pc' w r word leave_exclusive v = v
Call-Tells pc pc' w r word leave_shared v = v
Call-Tells pc pc' w r word try v = v

pub Step-IsExclusive :
    (n : ℕ) (s s' : Lock) (st : Step s s')
    → n < reader_mask
    → Permitted st
    → IsExclusive n s
    → IsExclusive n s'
unfolding run
Step-IsExclusive n s s' (accesses t pc weak at) small ok v =
    set-IsExclusive n s t pc (access weak pc s.word).0 (access weak pc s.word).1 v at
      (inr (access-seeks weak pc s.word))
      (λ w r kind few. access-Tells weak pc w r s.word kind (omega arith))
Step-IsExclusive n s s' (calls t pc pc' at call) small ok v =
    set-IsExclusive n s t pc pc' s.word v at (may ok)
      (λ w r kind few tells. Call-Tells pc pc' w r s.word call tells)
  where
    may : (t ≡ 0) ⊎ (seeks_write pc' ≡ 0) → (t ≡ 0) ⊎ (seeks_write pc ≡ 0 → seeks_write pc' ≡ 0)
    may (inl e) = inl e
    may (inr e) = inr (λ h. e)

-- Steps in which no thread but the first calls a function to become the writer.
pub data OneWriterSteps (s : Lock) : Lock → Type 0 where
  one_writer_start : OneWriterSteps s s
  one_writer_step :
      {t u : Lock} → OneWriterSteps s t → (st : Step t u) → Permitted st → OneWriterSteps s u

Steps-IsExclusive :
    (n : ℕ) (s s' : Lock)
    → n < reader_mask
    → IsExclusive n s
    → OneWriterSteps s s'
    → IsExclusive n s'
Steps-IsExclusive n s s' small v one_writer_start = v
Steps-IsExclusive n s s' small v (one_writer_step {t} steps st ok) =
    Step-IsExclusive n t s' st small ok (Steps-IsExclusive n s t small v steps)

sum-idle : (w : Pc → ℕ) (n : ℕ) → w idle ≡ 0 → sum_by w (replicate n idle) ≡ 0
sum-idle w zero e = refl
sum-idle w (suc n) e = omega (arith, e, sum-idle w n e)

unlocked-IsExclusive : (n : ℕ) → IsExclusive n (unlocked n)
unlocked-IsExclusive n = record {
  tells = record {
    one = omega (arith, sum-idle is_writer n refl);
    free = λ e. omega (arith, sum-idle is_reader n refl);
    held = λ e. absurd (omega (arith, sum-idle is_writer n refl));
    fits = omega arith;
  };
  others = quiet n;
  size = length-replicate n idle;
}
  where
    quiet : (n : ℕ) → seekers (replicate n idle) ≡ 0
    quiet zero = refl
    quiet (suc n) = sum-idle seeks_write n refl

-- However the accesses of the threads interleave, there is at most one writer inside, and no reader
-- beside it, if the lock starts free, fewer than 2 ^ 31 - 1 threads use it, and only one of them
-- calls ExAcquireSpinLockExclusive or ExTryConvertSharedSpinLockExclusive.
pub one_writer_excludes :
    (n : ℕ) (s : Lock)
    → n < reader_mask
    → OneWriterSteps (unlocked n) s
    → (sum_by is_writer s.pcs ≤ 1) × (sum_by is_writer s.pcs ≡ 1 → sum_by is_reader s.pcs ≡ 0)
one_writer_excludes n s small steps =
    let v = Steps-IsExclusive n (unlocked n) s small (unlocked-IsExclusive n) steps in
    (v.tells.one, λ e. (v.tells.held e).1)
