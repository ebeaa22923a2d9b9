-- ===== src/Handle/Lifetime.antt =====
-- The life of a handle table as a sequence of calls, from the empty table to the destructor.
use crescent.Common.{ℕ, ◌^◌, ◌<◌, ◌≡◌, refl, ◌≢◌, Bool, true, [], arith}
use crescent.Handle.{HandleTable, Objects, invalid_handle, insert, remove, destroy}
use crescent.Handle.FreeList.{IsValid}
use crescent.Handle.Invariant.{insert-IsValid, remove-IsValid}
use crescent.Handle.References.{IsBalanced, insert-IsBalanced, remove-IsBalanced, destroy-count}

-- A table as its members' initialisers leave it.
abbrev pub empty_table : Objects → HandleTable
empty_table s = record {
  table = [];
  size = 0;
  used = 0;
  free_handle_index = invalid_handle;
  objects = s;
}

-- One call under the lock. An insertion is made while the array is below 2 ^ 59 slots (2 ^ 63 bytes).
pub data Call : HandleTable → HandleTable → Type 0 where
  inserts :
      (memory : ℕ → Bool) (t : HandleTable) (object : ℕ) (inherit : Bool)
      → t.size < 2 ^ 59
      → Call t (insert memory t object inherit).0
  removes : (t : HandleTable) (k : ℕ) → Call t (remove t k).0

pub data Calls (s : HandleTable) : HandleTable → Type 0 where
  start : Calls s s
  call : {t u : HandleTable} → Calls s t → Call t u → Calls s u

empty_table-IsValid : (s : Objects) → IsValid (empty_table s)
empty_table-IsValid s = record {
  free_slots = [];
  free_list = refl;
  filled = omega arith;
  sized = refl;
  bounded = omega arith;
  untouched = λ i _. refl;
}

Call-IsValid : {t u : HandleTable} → Call t u → IsValid t → IsValid u
Call-IsValid (inserts memory t object inherit h) v = insert-IsValid memory t object inherit h v
Call-IsValid (removes t k) v = remove-IsValid t k v

-- After any sequence of insertions and removals the table is well formed.
pub Calls-IsValid : (s : Objects) {t : HandleTable} → Calls (empty_table s) t → IsValid t
Calls-IsValid s start = empty_table-IsValid s
Calls-IsValid s (call cs c) = Call-IsValid c (Calls-IsValid s cs)

Call-IsBalanced :
    (others : ℕ → ℕ) {t u : HandleTable}
    → Call t u
    → IsValid t
    → IsBalanced others t
    → IsBalanced others u
Call-IsBalanced others (inserts memory t object inherit h) v b =
    insert-IsBalanced others memory t object inherit h v b
Call-IsBalanced others (removes t k) v b = remove-IsBalanced others t k v b

Calls-IsBalanced :
    (s : Objects) {t : HandleTable}
    → ((o : ℕ) → s.permanent o ≡ true → 0 < s.count o)
    → Calls (empty_table s) t
    → IsBalanced s.count t
Calls-IsBalanced s held start = record { balanced = λ o ne. omega arith; held = held }
Calls-IsBalanced s held (call cs c) =
    Call-IsBalanced s.count c (Calls-IsValid s cs) (Calls-IsBalanced s held cs)

-- Whatever was inserted and removed, the destructor leaves every object with the number of
-- references that it had before the table was made. (Permanent objects must be held by others.)
pub destroy_restores :
    (s : Objects) (o : ℕ) {t : HandleTable}
    → o ≢ 0
    → ((p : ℕ) → s.permanent p ≡ true → 0 < s.count p)
    → Calls (empty_table s) t
    → (destroy t).count o ≡ s.count o
destroy_restores s o {t} ne held cs = destroy-count s.count t o ne (Calls-IsBalanced s held cs)
