-- ===== src/ListEntry.antt =====
-- The doubly linked lists of include/ntdef.h, and the interlocked operations of src/std/list.cpp,
-- each of which holds a spin lock from its first access to its last.
pub mod Ring
pub mod Removal
pub mod Interlocked
mod Tests
use crescent.Common.{ℕ, ◌≡◌, Bool, not, Option, none, some, List, [], ◌∷◌, ◌==◌, if◌then◌else◌}

-- `Flink` and `Blink` of every LIST_ENTRY, by its address.
pub record Links : Type 0 where
  pub flink : ℕ → ℕ
  pub blink : ℕ → ℕ

abbrev pub write : (ℕ → ℕ) → ℕ → ℕ → ℕ → ℕ
write field entry value other = if other == entry then value else field other

-- `InitializeListHead`.
pub initialize : Links → ℕ → Links
initialize h head = record { flink = write h.flink head head; blink = write h.blink head head }

-- `IsListEmpty`.
pub is_empty : Links → ℕ → Bool
is_empty h head = h.flink head == head

-- `InsertHeadList`.
pub insert_head : Links → ℕ → ℕ → Links
insert_head h head entry =
    let old = h.flink head in
    record {
      flink = write (write h.flink head entry) entry old;
      blink = write (write h.blink entry head) old entry;
    }

-- `InsertTailList`.
pub insert_tail : Links → ℕ → ℕ → Links
insert_tail h head entry =
    let old = h.blink head in
    record {
      flink = write (write h.flink entry head) old entry;
      blink = write (write h.blink head entry) entry old;
    }

-- `RemoveEntryList`: the links, and whether no entry is left.
pub remove_entry : Links → ℕ → Links × Bool
remove_entry h entry =
    let prev = h.blink entry in
    let flink = write h.flink prev (h.flink entry) in
    (record { flink = flink; blink = write h.blink (flink entry) prev }, flink entry == prev)

-- `RemoveHeadList`.
pub remove_head : Links → ℕ → Links × ℕ
remove_head h head =
    let entry = h.flink head in
    let flink = write h.flink head (h.flink entry) in
    (record { flink = flink; blink = write h.blink (flink entry) head }, entry)

-- `ExInterlockedInsertHeadList`; a null pointer is `none`.
pub interlocked_insert_head : Links → ℕ → ℕ → Links × Option ℕ
unfolding insert_head
interlocked_insert_head h head entry =
    (insert_head h head entry, if h.flink head == h.blink head then none else some (h.flink head))

-- `ExInterlockedInsertTailList`.
pub interlocked_insert_tail : Links → ℕ → ℕ → Links × Option ℕ
unfolding insert_tail
interlocked_insert_tail h head entry =
    (insert_tail h head entry, if h.flink head == h.blink head then none else some (h.blink head))

-- `ExInterlockedRemoveHeadList`.
pub interlocked_remove_head : Links → ℕ → Links × Option ℕ
unfolding remove_head
interlocked_remove_head h head =
    ((remove_head h head).0, if h.flink head == h.blink head then none else some (h.flink head))
