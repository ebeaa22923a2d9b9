-- ===== src/Sync/RwLock.antt =====
-- EX_SPIN_LOCK of src/utils/spinlock.cpp, which readers share and a writer holds alone. A thread
-- makes one access of the lock's word at a time, and the threads' accesses interleave in any order.
pub mod Exclusion
pub mod Fault
mod Tests
use crescent.Common.{
  ℕ, zero, suc, ◌+◌, ◌-◌, ◌*◌, ◌/◌, ◌%◌, ◌^◌, ◌≡◌, Bool, true, false, not, ◌&&◌, Option, none, some,
  List, [], ◌∷◌, ltb, ◌==◌, if◌then◌else◌, add32, sub32, get_elem?, set, replicate,
}

-- `WRITER_WAITING` is bit 31.
abbrev pub writer_waiting : ℕ → Bool
writer_waiting value = value / 2 ^ 31 % 2 == 1

abbrev pub mark_waiting : ℕ → ℕ
mark_waiting value = if writer_waiting value then value else value + 2 ^ 31

-- `READER_MASK`, and the bits under it.
abbrev pub reader_mask : ℕ
reader_mask = 0x7FFFFFFF

abbrev pub readers : ℕ → ℕ
readers value = value % 2 ^ 31

-- Where a thread is: outside, in one of the functions before its next access, with the local
-- `value`, or inside the lock.
pub data Pc : Type 0 where
  idle : Pc
  acquire_exclusive : Pc
  mark : ℕ → Pc
  wait_readers : ℕ → Pc
  writing : Pc
  release_exclusive : Pc
  acquire_shared : Pc
  wait_writer : Pc
  join_readers : ℕ → Pc
  reading : Pc
  release_shared : Pc
  try_convert : Pc
  convert : ℕ → Pc

-- The next access of a thread, and the word that it leaves. `weak` says that a
-- `compare_exchange_weak` fails although the word is the expected one.
pub access : Bool → Pc → ℕ → Pc × ℕ
access weak idle word = (idle, word)
-- `ExAcquireSpinLockExclusive`.
access weak acquire_exclusive word =
    if not (readers word == 0) && not (writer_waiting word)
    then (mark word, word)
    else (wait_readers word, word)
access weak (mark value) word =
    if word == value && not weak
    then (wait_readers value, mark_waiting value)
    else (mark word, word)
access weak (wait_readers value) word =
    if readers value == 0
    then (if word == value && not weak then (writing, reader_mask) else (wait_readers word, word))
    else (wait_readers word, word)
access weak writing word = (writing, word)
-- `ExReleaseSpinLockExclusive`.
access weak release_exclusive word = (idle, 0)
-- `ExAcquireSpinLockShared`.
access weak acquire_shared word =
    if writer_waiting word then (wait_writer, word) else (join_readers word, word)
access weak wait_writer word =
    if writer_waiting word then (wait_writer, word) else (join_readers word, word)
access weak (join_readers value) word =
    if value == reader_mask
    then (join_readers word, word)
    else if word == value && not weak
    then (reading, add32 value 1)
    else (join_readers word, word)
access weak reading word = (reading, word)
-- `ExReleaseSpinLockShared`.
access weak release_shared word = (idle, sub32 word 1)
-- `ExTryConvertSharedSpinLockExclusive`.
access weak try_convert word = (convert word, word)
access weak (convert value) word =
    if value == 1
    then (if word == value && not weak then (writing, reader_mask) else (convert word, word))
    else (reading, word)

-- The calls that a thread may make where it is.
pub data Call : Pc → Pc → Type 0 where
  exclusive : Call idle acquire_exclusive
  shared : Call idle acquire_shared
  leave_exclusive : Call writing release_exclusive
  leave_shared : Call reading release_shared
  try : Call reading try_convert

pub record Lock : Type 0 where
  pub word : ℕ
  pub pcs : List Pc

-- Thread `t` makes its next access.
pub run : Bool → ℕ → Pc → Lock → Lock
unfolding access
run weak t pc s =
    let (pc', word) = access weak pc s.word in record { word = word; pcs = set s.pcs t pc' }

-- A step of one thread.
pub data Step : Lock → Lock → Type 0 where
  accesses :
      {s : Lock} (t : ℕ) (pc : Pc) (weak : Bool)
      → get_elem? s.pcs t ≡ some pc
      → Step s (run weak t pc s)
  calls :
      {s : Lock} (t : ℕ) (pc pc' : Pc)
      → get_elem? s.pcs t ≡ some pc
      → Call pc pc'
      → Step s (record s { pcs = set s.pcs t pc' })

pub data Steps (s : Lock) : Lock → Type 0 where
  start : Steps s s
  step : {t u : Lock} → Steps s t → Step t u → Steps s u

-- Whether a thread is inside as a reader, or as the writer.
abbrev pub is_reader : Pc → ℕ
is_reader reading = 1
is_reader release_shared = 1
is_reader try_convert = 1
is_reader (convert value) = 1
is_reader _ = 0

abbrev pub is_writer : Pc → ℕ
is_writer writing = 1
is_writer release_exclusive = 1
is_writer _ = 0

-- The lock after its initialization, and `n` threads.
abbrev pub unlocked : ℕ → Lock
unlocked n = record { word = 0; pcs = replicate n idle }
