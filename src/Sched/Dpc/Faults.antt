-- ===== src/Sched/Dpc/Faults.antt =====
-- Two ways in which KeInsertQueueDpc spoils a well-formed queue: an entry of high importance takes
-- the tail pointer with it to the front, and an entry keeps the `Next` that it had when it was
-- called, which is not cleared.
use crescent.Common.{mem, ℕ, ◌≡◌, true, false, List}
use crescent.Sched.Dpc.{Cpu}

-- The links of the nodes in `s` lead to nodes in `s`, the first link too, and null is not in `s`.
record IsClosed (s : List ℕ) (c : Cpu) : Type 0 where
  first : mem (c.next 0) s ≡ true
  later : (n : ℕ) → mem n s ≡ true → mem (c.next n) s ≡ true
  no_null : mem 0 s ≡ false
