-- ===== src/Lib.antt =====
-- The Crescent2 kernel: a library of models of its components and of theorems about them.
--
-- Crescent2 is a kernel that offers the NT interface to drivers and programs. The parts modelled
-- here are leaves of it that the rest relies on, and each is a module of its own.
--
-- - Common: the library names that the modules share, Boolean tests and arrays over the native
--   numbers.
-- - Handle: the handle table of a process, src/sched/handle_table.cpp. `HandleTable` is the class;
--   `get`, `insert`, `remove` and `destroy` are its members. `Objects` holds what the table needs
--   of the object headers of src/fs/object.cpp, which `reference` and `dereference` change.
--   FreeList has the invariant, Invariant its preservation, Refine the map from handles to
--   objects, References and Lifetime the account of references.
-- - Sched.Dpc: the deferred procedure calls of one CPU, src/sched/dpc.cpp. `initialize`,
--   `set_importance`, `insert`, `remove` and `process` are the functions KeInitializeDpc,
--   KeSetImportanceDpc, KeInsertQueueDpc, KeRemoveQueueDpc and process_dpcs. KeInsertQueueDpc and
--   KeRemoveQueueDpc test an entry before they take the lock: `insert_seen` and `remove_seen` allow for
--   other accesses in between, `insert` and `remove` are without. Queue relates the
--   links to the list of entries, Fifo and Removal say when the operations are those of a queue,
--   Faults when they are not.
-- - Page: the allocator of physical pages, src/mem/pmalloc.cpp and early_pmalloc.cpp. `Pages` is
--   its state; `pmalloc`, `pmalloc_in_range`, `pfree`, `pfree_contiguous`, `add_mem` and `finalize`
--   are the functions of the same names. Cover counts the free runs that a page is in; Single,
--   Range, Handover and Boot use this to say which pages an operation takes and gives.
-- - VMem: the arenas that hand out ranges of addresses, src/mem/vmem.cpp. `VMem` is the class, with
--   its segments in a store by their addresses and each list as the sequence of them. Segments,
--   Freelists and Fit have the private functions, VMem itself `xalloc`, `xfree`, `init` and
--   `destroy`. Tiles says that the segments lie side by side, Files on which list each one is, Pool
--   where they come from; Arena is all of this. Join, Coalesce and Turns treat `freelist_insert`, Held,
--   Cut, Place and Fitting `seg_fit`, Search `xalloc`, Free `xfree`, and Attempt, Index and Found when `xalloc`
--   finds room; Use counts the ranges in use, and Runs and Start follow an arena over its calls.
-- - Slab: the allocator of small pieces, src/mem/malloc.cpp. `SlabAllocator` has the lists of pages,
--   `alloc` and `dealloc` are its functions, and `alloc_from` and `dealloc_from` what they do at one
--   list. Nodes is about the pieces of a page, Invariant says what holds at a list and which nodes
--   are in use, Outcome what a call may do; Take and Fresh treat the branches of `alloc`, Alloc and
--   Dealloc the functions, and Runs their calls in any order; Lists says which list a size leads to. The
--   pages come from Page.
-- - Rtl.Text, Rtl.Compare, Rtl.Number, Rtl.Convert: the counted strings of src/std/rtl.cpp, a
--   buffer of characters with lengths in bytes; their copies, comparisons, and the conversions to
--   and from numbers and between the two widths of characters. An access outside of a buffer is
--   `none`, so that a theorem which names a result says that there is none.
-- - Sync.SpinLock, Sync.RwLock: KSPIN_LOCK and EX_SPIN_LOCK of src/utils/spinlock.cpp. `access` is the
--   next atomic access of a thread, by the point of the function where it stands, and `Step` is a
--   step of any thread. Exclusion has the invariants of all interleavings, Fault a run of the
--   second lock that ends badly.
-- - ListEntry: the doubly linked lists of include/ntdef.h, with the functions of the same names, and
--   the interlocked operations of src/std/list.cpp. Ring relates the links to the sequence,
--   Removal and Interlocked take entries out.
-- - CString: the terminated strings of src/std/cstring.cpp and wchar.cpp. Strings says which text
--   memory holds, Writes and Order what the functions do with it.
-- - Rtl.Bitmap: the queries on an RTL_BITMAP of src/std/rtl.cpp.
-- - HzList, HzFront, HzView: what the kernel uses of hzutils, as records of operations and their laws.
-- - Rtl.Time: `fields_to_time` and `time_to_fields` are RtlTimeFieldsToTime and
--   RtlTimeToTimeFields of src/std/rtl.cpp for times and fields that are not negative, compared with
--   the calendar of Rtl.Time.Calendar; `time_to_fields_before` is the latter for a negative time. A sum that overflows an `i64` is `none`.
--
-- Conventions. A pointer or handle is a number, and 0 the null pointer. Numbers are natural
-- numbers; where an operation of the source can wrap, the model says `% 2 ^ w`. A function that
-- runs under a spin lock from its first access to its last is one step. A failed assertion, which
-- stops the kernel, is `none`.
--
-- Fuel. `process` is given a number of rounds: one more than the entries of the queue suffices
-- for it, and where the links form a circle none suffices. The walk of `remove` takes as many steps
-- as there are entries. `time_to_fields` gives its year loop one round for each day since 1601,
-- and the loop ends before they are used up. `digits` has the 64 characters of the source's buffer.
-- `coalesce` takes as many turns as the list of segments is long, and each turn shortens it; `search`
-- visits the freelists from an index to the last. `find_next_run` takes the rounds of the outer
-- loop as fuel; it ends when the index reaches the size, and where a theorem says that no fuel is enough the loop does not end.
--
-- Not modelled: the parts of the kernel that PROJECT.json lists as such, memory-ordering of atomic
-- accesses, interrupt levels, and the contents of hzutils and uACPI, which are git submodules.
pub mod Common
pub mod HzList
pub mod HzView
pub mod HzFront
pub mod CString
pub mod ListEntry
pub mod Page
pub mod VMem
pub mod Slab
pub mod Handle
pub mod Sched
pub mod Sync
pub mod Rtl
