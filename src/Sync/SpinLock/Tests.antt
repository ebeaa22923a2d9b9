-- ===== src/Sync/SpinLock/Tests.antt =====
-- Two threads that ask for a spin lock, one after the other.
use crescent.Common.{◌≡◌, refl, [], ◌∷◌}
use crescent.Sync.SpinLock.{
  idle, acquire, spin, try, holding, acquires, Lock, accesses, calls, Steps, start, step, access,
  run, unlocked,
}
use crescent.Sync.SpinLock.Exclusion.{Tells, Steps-Tells, free_lock_enters}

abbrev one_inside : Lock
one_inside = record { word = 1; pcs = holding ∷ spin ∷ [] }

one_waits : Steps (unlocked 2) one_inside
unfolding run access
one_waits =
    step
      (step (step (step start (calls 0 idle acquire refl acquires)) (accesses 0 acquire refl))
        (calls 1 idle acquire refl acquires))
      (accesses 1 acquire refl)

steps-Tells_example : Tells 1 one_inside.word
steps-Tells_example = Steps-Tells 2 one_inside one_waits

free_lock_enters_example :
    (access acquire 0 ≡ (holding, 1))
    × (access spin 0 ≡ (acquire, 0))
    × (access try 0 ≡ (holding, 1))
free_lock_enters_example = free_lock_enters 2 (unlocked 2) start refl
