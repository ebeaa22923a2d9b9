-- ===== src/Sync/SpinLock.antt =====
-- KSPIN_LOCK of src/utils/spinlock.cpp. A thread makes one access of the lock's word at a time, and
-- the threads' accesses interleave in any order.
pub mod Exclusion
mod Tests
use crescent.Common.{
  ℕ, ◌≡◌, Option, some, List, [], ◌∷◌, ◌==◌, if◌then◌else◌, get_elem?, set, replicate,
}

-- Where a thread is: outside, in a function before its next access, or inside the lock.
pub data Pc : Type 0 where
  idle acquire spin try holding release : Pc

-- The next access of a thread, and the word that it leaves.
pub access : Pc → ℕ → Pc × ℕ
access idle word = (idle, word)
-- `KeAcquireSpinLockAtDpcLevel`: the exchange, and the loop that waits.
access acquire word = if word == 0 then (holding, 1) else (spin, 1)
access spin word = if word == 0 then (acquire, word) else (spin, word)
-- `KeTryToAcquireSpinLockAtDpcLevel`.
access try word = if word == 0 then (holding, 1) else (idle, 1)
access holding word = (holding, word)
-- `KeReleaseSpinLockFromDpcLevel`.
access release word = (idle, 0)

-- The calls that a thread may make where it is.
pub data Call : Pc → Pc → Type 0 where
  acquires : Call idle acquire
  tries : Call idle try
  releases : Call holding release

pub record Lock : Type 0 where
  pub word : ℕ
  pub pcs : List Pc

-- `KeInitializeSpinLock`, and `n` threads.
abbrev pub unlocked : ℕ → Lock
unlocked n = record { word = 0; pcs = replicate n idle }

-- Thread `t` makes its next access.
pub run : ℕ → Pc → Lock → Lock
unfolding access
run t pc s = let (pc', word) = access pc s.word in record { word = word; pcs = set s.pcs t pc' }

pub data Step : Lock → Lock → Type 0 where
  accesses : {s : Lock} (t : ℕ) (pc : Pc) → get_elem? s.pcs t ≡ some pc → Step s (run t pc s)
  calls :
      {s : Lock} (t : ℕ) (pc pc' : Pc)
      → get_elem? s.pcs t ≡ some pc
      → Call pc pc'
      → Step s (record s { pcs = set s.pcs t pc' })

pub data Steps (s : Lock) : Lock → Type 0 where
  start : Steps s s
  step : {t u : Lock} → Steps s t → Step t u → Steps s u

-- Whether a thread is inside.
abbrev pub is_inside : Pc → ℕ
is_inside holding = 1
is_inside release = 1
is_inside _ = 0
