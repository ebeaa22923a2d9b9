-- ===== src/Sync/RwLock/Tests.antt =====
-- The reader-writer lock at concrete runs.
use crescent.Common.{◌+◌, ◌≤◌, ◌≡◌, refl, inl, inr, arith, false, [], ◌∷◌, sum_by, replicate}
use crescent.Sync.RwLock.{
  idle, acquire_exclusive, wait_readers, writing, acquire_shared, join_readers, exclusive, shared,
  accesses, calls, Lock, Steps, access, run, reader_mask, is_reader, is_writer, unlocked,
}
use crescent.Sync.RwLock.Exclusion.{
  OneWriterSteps, one_writer_start, one_writer_step, one_writer_excludes,
}
use crescent.Sync.RwLock.Fault.{overrun, two_writers_break}

-- A writer is inside, and a reader waits.
abbrev writer_inside : Lock
writer_inside = record { word = reader_mask; pcs = writing ∷ join_readers reader_mask ∷ [] }

reader_waits : OneWriterSteps (unlocked 2) writer_inside
unfolding run access
reader_waits =
    one_writer_step
      (one_writer_step
        (one_writer_step
          (one_writer_step
            (one_writer_step one_writer_start (calls 0 idle acquire_exclusive refl exclusive)
              (inl refl))
            (accesses 0 acquire_exclusive false refl) tt)
          (accesses 0 (wait_readers 0) false refl) tt)
        (calls 1 idle acquire_shared refl shared) (inr refl))
      (accesses 1 acquire_shared false refl) tt

one_writer_excludes_example :
    (sum_by is_writer writer_inside.pcs ≤ 1)
    × (sum_by is_writer writer_inside.pcs ≡ 1 → sum_by is_reader writer_inside.pcs ≡ 0)
one_writer_excludes_example = one_writer_excludes 2 writer_inside (omega arith) reader_waits

two_writers_break_example :
    Steps (unlocked 3) (overrun 0)
    × (sum_by is_writer (overrun 0).pcs ≡ 2 + sum_by is_writer (replicate 0 idle))
    × (sum_by is_reader (overrun 0).pcs ≡ 1 + sum_by is_reader (replicate 0 idle))
two_writers_break_example = two_writers_break 0
