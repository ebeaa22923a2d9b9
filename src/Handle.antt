-- ===== src/Handle.antt =====
-- The per-process handle table, src/sched/handle_table.cpp and .hpp, with the two reference
-- operations of src/fs/object.cpp that it calls. Every operation runs under the table's spin lock
-- from its first access to its last, so one call is one step.
mod Slots
pub mod FreeList
pub mod Invariant
pub mod Refine
pub mod References
pub mod Lifetime
mod Tests
use crescent.Common.{
  ℕ, zero, suc, ◌+◌, ◌-◌, ◌*◌, ◌/◌, ◌%◌, ◌^◌, Bool, true, false, not, Option, none, some, List, [],
  ◌∷◌, ◌++◌, ltb, ◌==◌, if◌then◌else◌, get_or, set, replicate,
}

-- `struct Handle`. In a free slot `object` holds the index of the next free slot.
pub record Handle : Type 0 where
  pub object : ℕ
  pub free : Bool
  pub inherit : Bool

-- `Handle {}`.
abbrev pub blank : Handle
blank = record { object = 0; free = false; inherit = false }

-- `(HANDLE) (-1)`.
abbrev pub invalid_handle : ℕ
invalid_handle = 2 ^ 64 - 1

-- The object headers that the table refers to: `pointer_count` and `permanent_object`.
pub record Objects : Type 0 where
  pub count : ℕ → ℕ
  pub permanent : ℕ → Bool

pub record HandleTable : Type 0 where
  pub table : List Handle
  pub size : ℕ
  pub used : ℕ
  pub free_handle_index : ℕ
  pub objects : Objects

abbrev pub slot : List Handle → ℕ → Handle
slot t i = get_or t i blank

abbrev pub set_count : Objects → ℕ → ℕ → Objects
set_count s o n = record s { count = λ p. if p == o then n else s.count p }

-- `ObfReferenceObject`.
pub reference : Objects → ℕ → Objects
reference s o = set_count s o (s.count o + 1)

-- `ObfDereferenceObject`. The release of an object whose count reaches 0 is its type's. A count of 0,
-- which the source would let wrap, stays: where each handle counts, as in Lifetime, none is 0 here.
pub dereference : Objects → ℕ → Objects
dereference s o =
    if o == 0
    then s
    else if s.permanent o
    then (if s.count o == 1 then s else set_count s o (s.count o - 1))
    else set_count s o (s.count o - 1)

-- `HandleTable::get`: the object comes back with a reference of its own.
pub get : HandleTable → ℕ → HandleTable × Option ℕ
get t value =
    if ltb value t.used
    then (let loc = slot t.table value in
        if loc.free
        then (t, none)
        else (record t { objects = reference t.objects loc.object }, some loc.object))
    else (t, none)

-- The size of the array after it is full, in `usize`.
pub grown : ℕ → ℕ
grown size = if ltb size 8 then 8 else (size + size / 2) % 2 ^ 64

-- The copy of the old array and the fresh slots behind it.
pub enlarge : HandleTable → HandleTable
unfolding grown
enlarge t = record t {
  table = t.table ++ replicate (grown t.size - t.size) blank;
  size = grown t.size;
}

-- The end of `HandleTable::insert`: the reference, and the write to the slot.
pub fill : HandleTable → ℕ → ℕ → Bool → HandleTable × ℕ
unfolding reference
fill t ret object inherit = (
  record t {
    objects = reference t.objects object;
    table = set t.table ret (record { object = object; free = false; inherit = inherit });
  },
  ret,
)

-- `ret = used++`.
pub append_slot : HandleTable → ℕ → Bool → HandleTable × ℕ
unfolding fill
append_slot t object inherit = fill (record t { used = t.used + 1 }) t.used object inherit

-- `HandleTable::insert`. `memory n` says whether `kmalloc` finds `n` bytes; a slot takes 16.
pub insert : (ℕ → Bool) → HandleTable → ℕ → Bool → HandleTable × ℕ
unfolding fill append_slot enlarge
insert memory t object inherit =
    if t.free_handle_index == invalid_handle
    then (if t.size == t.used
        then (if memory (grown t.size * 16 % 2 ^ 64)
            then append_slot (enlarge t) object inherit
            else (t, invalid_handle))
        else append_slot t object inherit)
    else fill (record t { free_handle_index = (slot t.table t.free_handle_index).object })
        t.free_handle_index object inherit

-- The writes of `HandleTable::remove`.
pub release : HandleTable → ℕ → HandleTable
unfolding dereference
release t value =
    let loc = slot t.table value in
    record t {
      objects = dereference t.objects loc.object;
      table = set t.table value (record loc { free = true; object = t.free_handle_index });
      free_handle_index = value;
    }

-- `HandleTable::remove`.
pub remove : HandleTable → ℕ → HandleTable × Bool
unfolding release
remove t value =
    if ltb value t.used
    then (if (slot t.table value).free then (t, false) else (release t value, true))
    else (t, false)

-- The loop of `HandleTable::~HandleTable` over the slots.
pub drop_all : Objects → List Handle → Objects
unfolding dereference
drop_all s [] = s
drop_all s (h ∷ hs) = drop_all (if h.free then s else dereference s h.object) hs

-- `HandleTable::~HandleTable`: the object headers that it leaves.
pub destroy : HandleTable → Objects
unfolding drop_all
destroy t = drop_all t.objects t.table
