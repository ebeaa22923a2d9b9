-- ===== src/Sched/Dpc.antt =====
-- The deferred procedure calls of one CPU, src/sched/dpc.cpp. The queue is the linked list that
-- starts in `dpc_list_head`; each access of it runs at HIGH_LEVEL under `dpc_list_lock`, so it is one
-- step. KeInsertQueueDpc and KeRemoveQueueDpc read `dpc_data` before they take the lock:
-- `insert_seen` and `remove_seen` are given what they read, and the queue as it is once they have the
-- lock; `insert` and `remove` are calls that nothing comes in between. Interrupt levels, which the
-- assertion at the start of `process_dpcs` is about, are left out.
pub mod Queue
pub mod Fifo
pub mod Removal
pub mod Faults
mod Tests
use crescent.Common.{
  ℕ, zero, suc, Bool, true, false, ◌||◌, Option, none, some, List, [], ◌∷◌, ◌==◌, if◌then◌else◌,
}

-- `DpcImportance`.
pub data Importance : Type 0 where
  low medium high medium_high : Importance

-- A node is 0, the list head itself, or the (nonzero) address of a KDPC. `next` holds the `Next`
-- of each, where 0 is the null pointer: no `Next` points to the head. `queued` says that
-- `dpc_data` is not null. `number` is left out: all of these DPCs are bound to this CPU.
pub record Cpu : Type 0 where
  pub next : ℕ → ℕ
  pub tail : ℕ
  pub queued : ℕ → Bool
  pub importance : ℕ → Importance
  pub system_arg1 : ℕ → ℕ
  pub system_arg2 : ℕ → ℕ
  pub deferred_ctx : ℕ → ℕ
  pub irq_requested : Bool

abbrev pub update {ℓ} : {A : Type ℓ} → (ℕ → A) → ℕ → A → ℕ → A
update f p v q = if q == p then v else f q

abbrev is_high : Importance → Bool
is_high high = true
is_high medium = false
is_high low = false
is_high medium_high = false

-- The two branches of KeInsertQueueDpc that link the entry in.
pub link_first : Cpu → ℕ → Cpu
link_first c dpc = record c { next = update (update c.next dpc (c.next 0)) 0 dpc; tail = dpc }

pub link_last : Cpu → ℕ → Cpu
link_last c dpc = record c { next = update c.next c.tail dpc; tail = dpc }

pub link : Cpu → ℕ → Importance → Cpu
unfolding link_first link_last
link c dpc importance =
    if is_high importance || c.next 0 == 0 then link_first c dpc else link_last c dpc

-- `KeInitializeDpc`.
pub initialize : Cpu → ℕ → ℕ → Cpu
initialize c dpc ctx = record c {
  importance = update c.importance dpc medium;
  next = update c.next dpc 0;
  deferred_ctx = update c.deferred_ctx dpc ctx;
  queued = update c.queued dpc false;
}

-- `KeSetImportanceDpc`.
pub set_importance : Cpu → ℕ → Importance → Cpu
set_importance c dpc importance = record c { importance = update c.importance dpc importance }

-- `KeInsertQueueDpc`, where `seen` says whether `dpc_data` was set when it was read, and `c` is the
-- queue under the lock; `here` says that the DPC's CPU is the current one.
pub insert_seen : Bool → Bool → Cpu → ℕ → ℕ → ℕ → Cpu × Bool
unfolding link
insert_seen here seen c dpc arg1 arg2 = if seen then (c, false) else (
  link
      (record c {
        system_arg1 = update c.system_arg1 dpc arg1;
        system_arg2 = update c.system_arg2 dpc arg2;
        queued = update c.queued dpc true;
        irq_requested = c.irq_requested || here;
      })
      dpc (c.importance dpc),
  true,
)

-- `KeInsertQueueDpc` without another access in between.
pub insert : Bool → Cpu → ℕ → ℕ → ℕ → Cpu × Bool
unfolding insert_seen
insert here c dpc arg1 arg2 = insert_seen here (c.queued dpc) c dpc arg1 arg2

-- The walk of KeRemoveQueueDpc to the entry before `dpc`; `none` is a failed assertion.
pub find_before : ℕ → (ℕ → ℕ) → ℕ → ℕ → Option ℕ
find_before zero next entry dpc = none
find_before (suc fuel) next entry dpc =
    let later = find_before fuel next (next entry) dpc in
    if next entry == dpc then some entry else if next entry == 0 then none else later

-- The rest of `KeRemoveQueueDpc`; `none` is a failed assertion, here that the entry is the tail.
pub unlink : Cpu → ℕ → ℕ → Option Cpu
unlink c dpc entry =
    let c' = record c {
      next = update c.next entry (c.next dpc);
      queued = update c.queued dpc false;
    } in
    if c.next dpc == 0
    then (if dpc == c.tail then some (record c' { tail = entry }) else none)
    else some c'

-- `KeRemoveQueueDpc`, where `seen` says whether `dpc_data` was set when it was read, and `c` is the
-- queue under the lock; `none` is a failed assertion.
pub remove_seen : ℕ → Bool → Cpu → ℕ → Option (Cpu × Bool)
unfolding find_before unlink
remove_seen fuel seen c dpc =
    if seen
    then if c.queued dpc
      then elim (find_before fuel c.next 0 dpc) [
        | none ↦ none
        | some entry ↦ elim (unlink c dpc entry) [ none ↦ none | some c' ↦ some (c', true) ]
      ]
      else none
    else some (c, false)

-- `KeRemoveQueueDpc` without another access in between.
pub remove : ℕ → Cpu → ℕ → Option (Cpu × Bool)
unfolding remove_seen
remove fuel c dpc = remove_seen fuel (c.queued dpc) c dpc

-- A call of a deferred routine.
pub record Run : Type 0 where
  pub dpc : ℕ
  pub ctx : ℕ
  pub arg1 : ℕ
  pub arg2 : ℕ

-- The locked part of a round of `process_dpcs`.
pub pop : Cpu → Option (Run × Cpu)
pop c =
    let entry = c.next 0 in
    if entry == 0
    then none
    else some (
      record {
        dpc = entry;
        ctx = c.deferred_ctx entry;
        arg1 = c.system_arg1 entry;
        arg2 = c.system_arg2 entry;
      },
      record c { next = update c.next 0 (c.next entry); queued = update c.queued entry false },
    )

abbrev pub before : Run → Option (List Run × Cpu) → Option (List Run × Cpu)
before r none = none
before r (some (rs, c)) = some (r ∷ rs, c)

-- `process_dpcs`. `routine` is what the deferred routines do to the queue. The result is `none`
-- if the loop does not end in `fuel` rounds.
pub process : ℕ → (Run → Cpu → Cpu) → Cpu → Option (List Run × Cpu)
unfolding pop
process zero routine c = none
process (suc fuel) routine c = elim (pop c) [
  | none ↦ some ([], c)
  | some (r, c') ↦ before r (process fuel routine (routine r c'))
]
