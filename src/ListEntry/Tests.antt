-- ===== src/ListEntry/Tests.antt =====
-- Lists of one and two entries.
use crescent.Common.{◌≡◌, refl, none, [], ◌∷◌}
use crescent.ListEntry.{
  Links, initialize, insert_head, insert_tail, remove_entry, interlocked_remove_head,
}
use crescent.ListEntry.Removal.{remove_entry-IsRing}
use crescent.ListEntry.Ring.{IsRing, initialize-IsRing, insert_head-IsRing, insert_tail-IsRing}
use crescent.ListEntry.Interlocked.{interlocked_remove_head_lem}

-- Nothing is linked yet.
abbrev blank : Links
blank = record { flink = λ a. 0; blink = λ a. 0 }

one_entry : IsRing (insert_head (initialize blank 100) 100 7) 100 (7 ∷ [])
one_entry = insert_head-IsRing (initialize blank 100) 100 7 [] (initialize-IsRing blank 100) refl

insert_head-IsRing_example : IsRing (insert_head (initialize blank 100) 100 7) 100 (7 ∷ [])
insert_head-IsRing_example =
    insert_head-IsRing (initialize blank 100) 100 7 [] (initialize-IsRing blank 100) refl

insert_tail-IsRing_example :
    IsRing (insert_tail (insert_head (initialize blank 100) 100 7) 100 9) 100 (7 ∷ 9 ∷ [])
insert_tail-IsRing_example =
    insert_tail-IsRing (insert_head (initialize blank 100) 100 7) 100 9 (7 ∷ []) one_entry refl

two_entries : IsRing (insert_tail (insert_head (initialize blank 100) 100 7) 100 9) 100 (7 ∷ 9 ∷ [])
two_entries =
    insert_tail-IsRing (insert_head (initialize blank 100) 100 7) 100 9 (7 ∷ []) one_entry refl

remove_entry-IsRing_example :
    IsRing
      (remove_entry (insert_tail (insert_head (initialize blank 100) 100 7) 100 9) 9).0
      100
      (7 ∷ [])
remove_entry-IsRing_example =
    remove_entry-IsRing (insert_tail (insert_head (initialize blank 100) 100 7) 100 9) 100 9
      (7 ∷ []) [] two_entries

interlocked_remove_head_example :
    IsRing (interlocked_remove_head (insert_head (initialize blank 100) 100 7) 100).0 100 []
    × ((interlocked_remove_head (insert_head (initialize blank 100) 100 7) 100).1 ≡ none)
interlocked_remove_head_example =
    interlocked_remove_head_lem (insert_head (initialize blank 100) 100 7) 100 7 [] one_entry
