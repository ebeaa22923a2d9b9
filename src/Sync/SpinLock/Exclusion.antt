-- ===== src/Sync/SpinLock/Exclusion.antt =====
-- Mutual exclusion of the spin lock, and that a free lock is taken by who asks for it.
use crescent.Common.{
  ℕ, zero, suc, ◌+◌, ◌≤◌, ◌≡◌, refl, sym, ◌∙◌, subst, arith, some, get_elem?, set, sum_by,
  sum_by-set, replicate,
}
use crescent.Sync.SpinLock.{
  Pc, idle, acquire, spin, try, holding, Call, acquires, tries, releases, Lock, Step, accesses,
  calls, Steps, start, step, access, run, is_inside, unlocked,
}

-- The word says whether one thread is inside, and no more are.
abbrev pub Tells : ℕ → ℕ → Type 0
Tells inside word = (word ≡ inside) × (inside ≤ 1)

access-Tells :
    (pc : Pc) (o word : ℕ)
    → Tells (o + is_inside pc) word
    → let (pc', word') = access pc word in Tells (o + is_inside pc') word'
unfolding access
access-Tells pc o word v = ground arith

Call-Tells :
    (pc pc' : Pc) (o word : ℕ)
    → Call pc pc'
    → Tells (o + is_inside pc) word
    → Tells (o + is_inside pc') word
Call-Tells pc pc' o word acquires v = v
Call-Tells pc pc' o word tries v = v
Call-Tells pc pc' o word releases v = v

set-Tells :
    (s : Lock) (t : ℕ) (pc pc' : Pc) (word : ℕ)
    → get_elem? s.pcs t ≡ some pc
    → ((o : ℕ) → Tells (o + is_inside pc) s.word → Tells (o + is_inside pc') word)
    → Tells (sum_by is_inside s.pcs) s.word
    → Tells (sum_by is_inside (set s.pcs t pc')) word
set-Tells s t pc pc' word at tell v =
    let (o, now, later) = sum_by-set is_inside s.pcs t pc at in
    subst (λ k. Tells k word) (sym (later pc')) (tell o (subst (λ k. Tells k s.word) now v))

Step-Tells :
    (s s' : Lock)
    → Step s s'
    → Tells (sum_by is_inside s.pcs) s.word
    → Tells (sum_by is_inside s'.pcs) s'.word
unfolding run
Step-Tells s s' (accesses t pc at) v =
    set-Tells s t pc (access pc s.word).0 (access pc s.word).1 at (λ o. access-Tells pc o s.word) v
Step-Tells s s' (calls t pc pc' at call) v =
    set-Tells s t pc pc' s.word at (λ o. Call-Tells pc pc' o s.word call) v

sum-idle : (n : ℕ) → sum_by is_inside (replicate n idle) ≡ 0
sum-idle zero = refl
sum-idle (suc n) = omega (arith, sum-idle n)

-- However the accesses of any number of threads interleave, at most one thread is inside the lock,
-- and the word says whether one is, if the lock starts free.
pub Steps-Tells : (n : ℕ) (s : Lock) → Steps (unlocked n) s → Tells (sum_by is_inside s.pcs) s.word
Steps-Tells n s start = (sym (sum-idle n), omega (arith, sum-idle n))
Steps-Tells n s (step {t} steps st) = Step-Tells t s st (Steps-Tells n t steps)

-- A thread that waits for a lock enters with its next two accesses at most if no thread is inside
-- and it makes them before the others; a thread that only tries enters with one.
pub free_lock_enters :
    (n : ℕ) (s : Lock)
    → Steps (unlocked n) s
    → sum_by is_inside s.pcs ≡ 0
    → (access acquire s.word ≡ (holding, 1))
      × (access spin s.word ≡ (acquire, 0))
      × (access try s.word ≡ (holding, 1))
unfolding access
free_lock_enters n s steps empty =
    let word_0 : s.word ≡ 0 = (Steps-Tells n s steps).0 ∙ empty in rw word_0 (refl, refl, refl)
