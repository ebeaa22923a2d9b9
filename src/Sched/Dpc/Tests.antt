-- ===== src/Sched/Dpc/Tests.antt =====
-- Tests of the DPC queue, and its theorems at concrete queues.
use crescent.Common.{
  ℕ, ◌+◌, ◌≡◌, refl, inl, inr, true, false, Option, none, some, List, [], ◌∷◌, arith, if◌then◌else◌,
  ◌==◌,
}
use crescent.Sched.Dpc.{
  Cpu, high, medium, low, Run, insert, insert_seen, remove, remove_seen, find_before, unlink, pop,
  process,
}
use crescent.Sched.Dpc.Queue.{Holds}
use crescent.Sched.Dpc.Fifo.{insert_enqueues, pop_dequeues, process-Drains, Drains, taken, call_of}

abbrev idle : Cpu
idle = record {
  next = λ p. 0;
  tail = 0;
  queued = λ p. false;
  importance = λ p. if p == 3 then high else if p == 2 then low else medium;
  system_arg1 = λ p. 0;
  system_arg2 = λ p. 0;
  deferred_ctx = λ p. p + 100;
  irq_requested = false;
}

-- DPC 1, then DPC 2.
abbrev two_queued : Cpu
two_queued = (insert true (insert true idle 1 7 8).0 2 0 0).0

idle-Holds : Holds idle []
idle-Holds = record { linked = refl; tail_last = λ ne. absurd (ne refl); marked = λ d z. refl }

one-Holds : Holds (insert true idle 1 7 8).0 (1 ∷ [])
unfolding insert insert_seen
one-Holds =
    (insert_enqueues true false idle 1 7 8 [] (omega arith) refl (inr refl) (λ e. refl)
      idle-Holds).1

two_queued-Holds : Holds two_queued (1 ∷ 2 ∷ [])
unfolding insert insert_seen
two_queued-Holds =
    (insert_enqueues true false (insert true idle 1 7 8).0 2 0 0 (1 ∷ []) (omega arith) refl
      (inl (λ e. cc)) (λ e. refl) one-Holds).1

abbrev calls : ℕ → Option (List Run)
calls fuel = elim (process fuel (λ r c. c) two_queued) [ none ↦ none | some (rs, c) ↦ some rs ]

calls_both :
    calls 3
    ≡ some (
        record { dpc = 1; ctx = 101; arg1 = 7; arg2 = 8 }
        ∷ record { dpc = 2; ctx = 102; arg1 = 0; arg2 = 0 }
        ∷ [])
unfolding process insert
calls_both = refl

pop_dequeues_example :
    (pop two_queued ≡ some (call_of two_queued 1, taken two_queued 1))
    × Holds (taken two_queued 1) (2 ∷ [])
pop_dequeues_example = pop_dequeues two_queued 1 (2 ∷ []) two_queued-Holds

process-Drains_example : Drains (1 ∷ 2 ∷ []) (process 3 (λ r c. c) two_queued)
process-Drains_example =
    process-Drains 3 (λ r c. c) two_queued (1 ∷ 2 ∷ []) (omega arith) (λ r d ys v. v)
      two_queued-Holds

removes_the_first :
    remove 2 two_queued 1
    ≡ some
        (record (taken two_queued 1) { next = λ p. if p == 0 then 2 else two_queued.next p }, true)
unfolding remove remove_seen find_before unlink insert insert_seen
removes_the_first = refl

-- DPC 1 is called between the test and the lock.
removes_too_late : remove_seen 2 true (taken two_queued 1) 1 ≡ none
unfolding insert insert_seen remove_seen
removes_too_late = refl
