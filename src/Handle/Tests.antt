-- ===== src/Handle/Tests.antt =====
-- Tests of the handle table, and its theorems at concrete tables.
use crescent.Common.{ℕ, ◌^◌, ◌<◌, ◌*◌, ◌%◌, ◌==◌, ◌≡◌, refl, Bool, true, false, arith}
use crescent.Handle.{HandleTable, Objects, invalid_handle, get, insert, remove, destroy, grown}
use crescent.Handle.FreeList.{IsValid}
use crescent.Handle.Refine.{
  lookup, Inserts, Removes, insert_refines, remove_refines, insert_fails, get-lookup,
}
use crescent.Handle.Lifetime.{
  empty_table, inserts, removes, start, call, Calls, Calls-IsValid, destroy_restores,
}

-- Object 7 is permanent and object 5 is not; each is held once.
abbrev two_objects : Objects
two_objects = record { count = λ o. 1; permanent = λ o. o == 7 }

abbrev plenty : ℕ → Bool
plenty n = true

abbrev one_handle : HandleTable
one_handle = (insert plenty (empty_table two_objects) 7 false).0

first_handle : (insert plenty (empty_table two_objects) 7 false).1 ≡ 0
unfolding insert
first_handle = refl

reused_handle : (insert plenty (remove one_handle 0).0 5 true).1 ≡ 0
unfolding insert remove
reused_handle = refl

counted : (remove one_handle 0).0.objects.count 7 ≡ 1
unfolding insert remove
counted = refl

history : Calls (empty_table two_objects) (remove one_handle 0).0
history =
    call (call start (inserts plenty (empty_table two_objects) 7 false (omega arith)))
      (removes one_handle 0)

one_handle-Calls : Calls (empty_table two_objects) one_handle
one_handle-Calls = call start (inserts plenty (empty_table two_objects) 7 false (omega arith))

one_handle-IsValid : IsValid one_handle
one_handle-IsValid = Calls-IsValid two_objects one_handle-Calls

small : one_handle.size < 2 ^ 59
unfolding insert
small = omega arith

insert_refines_example : Inserts one_handle 5 (insert plenty one_handle 5 true)
insert_refines_example = insert_refines plenty one_handle 5 true small one_handle-IsValid

remove_refines_example : Removes one_handle 0 (remove one_handle 0)
remove_refines_example = remove_refines one_handle 0 one_handle-IsValid

get-lookup_example :
    ((get one_handle 0).1 ≡ lookup one_handle 0)
    × (lookup (get one_handle 0).0 0 ≡ lookup one_handle 0)
get-lookup_example = get-lookup one_handle 0 0

Calls-IsValid_example : IsValid (remove one_handle 0).0
Calls-IsValid_example = Calls-IsValid two_objects history

destroy_restores_example : (destroy (remove one_handle 0).0).count 7 ≡ 1
destroy_restores_example =
    destroy_restores two_objects 7 (λ q. absurd (omega arith)) (λ p h. omega arith) history

abbrev starved : ℕ → Bool
starved n = false

starved_fails : (insert starved (empty_table two_objects) 7 false).1 ≡ invalid_handle
unfolding insert
starved_fails = refl

insert_fails_example :
    ((empty_table two_objects).free_handle_index ≡ invalid_handle)
    × ((empty_table two_objects).size ≡ (empty_table two_objects).used)
    × (starved (grown (empty_table two_objects).size * 16 % 2 ^ 64) ≡ false)
insert_fails_example =
    insert_fails starved (empty_table two_objects) 7 false (omega arith)
      (Calls-IsValid two_objects start) starved_fails
