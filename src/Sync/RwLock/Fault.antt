-- ===== src/Sync/RwLock/Fault.antt =====
-- Two writers and a reader at a time.
use crescent.Common.{ℕ, suc, ◌+◌, ◌≡◌, refl, arith, false, ◌∷◌, replicate, sum_by}
use crescent.Sync.RwLock.{
  idle, acquire_exclusive, mark, wait_readers, writing, acquire_shared, join_readers, reading,
  exclusive, shared, accesses, calls, start, step, Lock, Steps, access, run, reader_mask, is_reader,
  is_writer, unlocked,
}

-- All three inside, and any number of other threads outside.
abbrev pub overrun : ℕ → Lock
overrun n = record { word = reader_mask; pcs = reading ∷ writing ∷ writing ∷ replicate n idle }

-- From a free lock with three threads or more there are steps after which one reader and two
-- writers are inside at once. The reader reads the free word. A writer enters, and another one marks that it waits. The reader's
-- exchange fails and loads the marked word, which is not READER_MASK, so the next one succeeds and
-- wraps the word to 0. The writer that waits finds it free.
pub two_writers_break :
    (n : ℕ)
    → Steps (unlocked (suc (suc (suc n)))) (overrun n)
      × (sum_by is_writer (overrun n).pcs ≡ 2 + sum_by is_writer (replicate n idle))
      × (sum_by is_reader (overrun n).pcs ≡ 1 + sum_by is_reader (replicate n idle))
unfolding run access
two_writers_break n = (
  step
      (step
        (step
          (step
            (step
              (step
                (step
                  (step
                    (step
                      (step
                        (step (step start (calls 0 idle acquire_shared refl shared))
                          (accesses 0 acquire_shared false refl))
                        (calls 1 idle acquire_exclusive refl exclusive))
                      (accesses 1 acquire_exclusive false refl))
                    (accesses 1 (wait_readers 0) false refl))
                  (calls 2 idle acquire_exclusive refl exclusive))
                (accesses 2 acquire_exclusive false refl))
              (accesses 2 (mark reader_mask) false refl))
            (accesses 0 (join_readers 0) false refl))
          (accesses 0 (join_readers 0xFFFFFFFF) false refl))
        (accesses 2 (wait_readers reader_mask) false refl))
      (accesses 2 (wait_readers 0) false refl),
  omega arith,
  omega arith,
)
