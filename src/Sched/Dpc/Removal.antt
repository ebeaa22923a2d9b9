-- ===== src/Sched/Dpc/Removal.antt =====
-- KeRemoveQueueDpc on a well-formed queue: the entry alone is gone.
use crescent.Common.{
  mem, ℕ, ◌≡◌, Bool, true, false, Option, none, some, List, [], ◌∷◌, ◌==◌, if◌then◌else◌,
}
use crescent.Sched.Dpc.{Cpu, update}
use crescent.Sched.Dpc.Queue.{Holds}

abbrev pub erase : ℕ → List ℕ → List ℕ
erase d [] = []
erase d (x ∷ xs) = if x == d then xs else x ∷ erase d xs

-- The node whose link names `d`.
abbrev node_before : ℕ → ℕ → List ℕ → ℕ
node_before p d [] = p
node_before p d (x ∷ xs) = if x == d then p else node_before x d xs

-- The queue that `unlink` leaves when its assertion holds.
abbrev unlinked : Cpu → ℕ → ℕ → Cpu
unlinked c d entry = record c {
  next = update c.next entry (c.next d);
  queued = update c.queued d false;
  tail = if c.next d == 0 then entry else c.tail;
}

-- What the outcome of `remove_seen` means for a queue that holds `xs`.
abbrev pub Removes : Bool → ℕ → List ℕ → Option (Cpu × Bool) → Type 0
Removes seen d xs none = (seen ≡ true) × (mem d xs ≡ false)
Removes seen d xs (some (c, found)) =
    (found ≡ seen) × (seen ≡ true → mem d xs ≡ true) × Holds c (if seen then erase d xs else xs)
