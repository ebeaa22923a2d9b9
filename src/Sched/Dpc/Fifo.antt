-- ===== src/Sched/Dpc/Fifo.antt =====
-- The queue is first in, first out, as long as an entry goes in with a null `Next`.
use crescent.Common.{
  mem, ℕ, zero, suc, ◌<◌, ◌≡◌, refl, sym, ◌∙◌, ap, ◌≢◌, ◌⊎◌, inl, inr, Bool, true, false, ◌||◌, not,
  Option, none, some, List, [], ◌∷◌, ◌++◌, map, arith, ◌==◌, if◌then◌else◌, length,
}
use crescent.Sched.Dpc.{
  Cpu, Importance, high, medium, low, medium_high, Run, update, is_high, link_first, link_last,
  link, insert_seen, pop, before, process,
}
use crescent.Sched.Dpc.Queue.{
  Linked, last, Holds, Linked-update, Linked-front, Linked-back, Linked-restart, null_off_list,
  mem-append, last-append,
}

-- The queue with the entry's arguments stored and the entry marked.
abbrev pub stored : Bool → Cpu → ℕ → ℕ → ℕ → Cpu
stored here c dpc arg1 arg2 = record c {
  system_arg1 = update c.system_arg1 dpc arg1;
  system_arg2 = update c.system_arg2 dpc arg2;
  queued = update c.queued dpc true;
  irq_requested = c.irq_requested || here;
}

-- What linking an entry in needs, and what it leaves, with its `queued` mark already set.
record Enters (c : Cpu) (d : ℕ) (xs : List ℕ) : Type 0 where
  real : d ≢ 0
  fresh : c.next d ≡ 0
  off : mem d xs ≡ false
  linked : Linked c.next 0 xs
  tail_last : xs ≢ [] → c.tail ≡ last 0 xs
  marked : (e : ℕ) → e ≢ 0 → c.queued e ≡ (e == d || mem e xs)

link_first-Holds : (c : Cpu) (d : ℕ) → Enters c d [] → Holds (link_first c d) (d ∷ [])
unfolding link_first
link_first-Holds c d v = record {
  linked = Linked-front c.next 0 d [] refl refl v.real (let z = v.real in ground arith) v.linked;
  tail_last = λ _. refl;
  marked = λ e z. v.marked e z;
}

link_last-Holds :
    (c : Cpu) (d : ℕ) (xs : List ℕ) → xs ≢ [] → Enters c d xs → Holds (link_last c d) (xs ++ d ∷ [])
unfolding link_last
link_last-Holds c d xs some_queued v = record {
  linked = rw (v.tail_last some_queued) (
      Linked-back c.next 0 d xs v.off (null_off_list c.next 0 xs v.linked) v.real
        (let z = v.real in ground arith) v.fresh v.linked);
  tail_last = λ _. sym (last-append 0 d xs);
  marked = λ e z. ground (arith, v.marked e z, mem-append e xs (d ∷ []));
}

calm_not_high :
    (importance : Importance) (x : ℕ) (xs : List ℕ)
    → (importance ≢ high) ⊎ (x ∷ xs ≡ [])
    → is_high importance ≡ false
calm_not_high high x xs (inl ne) = absurd (ne refl)
calm_not_high medium x xs (inl ne) = refl
calm_not_high low x xs (inl ne) = refl
calm_not_high medium_high x xs (inl ne) = refl
calm_not_high importance x xs (inr e) = cc

link-Holds :
    (c : Cpu) (d : ℕ) (importance : Importance) (xs : List ℕ)
    → (importance ≢ high) ⊎ (xs ≡ [])
    → Enters c d xs
    → Holds (link c d importance) (xs ++ d ∷ [])
unfolding link
link-Holds c d importance [] calm v = ground (arith, v.linked, link_first-Holds c d v)
link-Holds c d importance (x ∷ xs) calm v =
    rw (calm_not_high importance x xs calm, off_null) (link_last-Holds c d (x ∷ xs) (λ e. cc) v)
  where
    off_null : (c.next 0 == 0) ≡ false
    off_null = let (e, z, m, l) = v.linked in ground arith

pub insert_enqueues :
    (here seen : Bool) (c : Cpu) (d : ℕ) (arg1 arg2 : ℕ) (xs : List ℕ)
    → d ≢ 0
    → c.next d ≡ 0
    → (c.importance d ≢ high) ⊎ (xs ≡ [])
    → (seen ≡ false → mem d xs ≡ false)
    → Holds c xs
    → let (c', accepted) = insert_seen here seen c d arg1 arg2 in
      (accepted ≡ not seen) × Holds c' (if seen then xs else xs ++ d ∷ [])
unfolding insert_seen
insert_enqueues here true c d arg1 arg2 xs z fresh calm off v = (refl, v)
insert_enqueues here false c d arg1 arg2 xs z fresh calm off v = (
  refl,
  link-Holds (stored here c d arg1 arg2) d (c.importance d) xs calm (record {
    real = z;
    fresh = fresh;
    off = off refl;
    linked = v.linked;
    tail_last = v.tail_last;
    marked = λ e y. ground (arith, v.marked e y);
  }),
)

-- The call that a round makes of the first entry, and the queue that it leaves.
abbrev pub call_of : Cpu → ℕ → Run
call_of c x = record {
  dpc = x;
  ctx = c.deferred_ctx x;
  arg1 = c.system_arg1 x;
  arg2 = c.system_arg2 x;
}

abbrev pub taken : Cpu → ℕ → Cpu
taken c x = record c { next = update c.next 0 (c.next x); queued = update c.queued x false }

taken-Holds : (c : Cpu) (x : ℕ) (xs : List ℕ) → Holds c (x ∷ xs) → Holds (taken c x) xs
taken-Holds c x xs v = record {
  linked = Linked-restart (update c.next 0 (c.next x)) x 0 xs (ground arith) (
      Linked-update c.next x 0 (c.next x) xs (ground arith) (null_off_list c.next x xs v.linked.3)
        v.linked.3);
  tail_last = λ ne. v.tail_last (λ e. cc) ∙ last-any xs ne;
  marked = λ e z. ground (arith, v.marked e z);
}
  where
    last-any : (ys : List ℕ) → ys ≢ [] → last x ys ≡ last 0 ys
    last-any [] ne = absurd (ne refl)
    last-any (y ∷ ys) ne = refl

-- A round of the loop calls the first entry, with the arguments that it was queued with, and
-- leaves the rest of the queue.
pub pop_dequeues :
    (c : Cpu) (x : ℕ) (xs : List ℕ)
    → Holds c (x ∷ xs)
    → (pop c ≡ some (call_of c x, taken c x)) × Holds (taken c x) xs
unfolding pop
pop_dequeues c x xs v = (ground (arith, v.linked), taken-Holds c x xs v)

-- On an empty queue it stops.
pub pop_empty : (c : Cpu) → Holds c [] → pop c ≡ none
unfolding pop
pop_empty c v = ground (arith, v.linked)

-- What a run of the loop does to a queue that holds `xs`.
abbrev pub Drains : List ℕ → Option (List Run × Cpu) → Type 0
Drains xs none = ⊥
Drains xs (some (rs, c)) = (map (λ (r : Run). r.dpc) rs ≡ xs) × Holds c []

process_stop :
    (fuel : ℕ) (routine : Run → Cpu → Cpu) (c : Cpu)
    → pop c ≡ none
    → process (suc fuel) routine c ≡ some ([], c)
unfolding process
process_stop fuel routine c e = rw (e, process)

process_round :
    (fuel : ℕ) (routine : Run → Cpu → Cpu) (c d : Cpu) (r : Run)
    → pop c ≡ some (r, d)
    → process (suc fuel) routine c ≡ before r (process fuel routine (routine r d))
unfolding process
process_round fuel routine c d r e = rw (e, process)

before-Drains :
    (r : Run) (xs : List ℕ) (o : Option (List Run × Cpu))
    → Drains xs o
    → Drains (r.dpc ∷ xs) (before r o)
before-Drains r xs none h = h
before-Drains r xs (some (rs, c)) (e, w) = (ap (λ l. r.dpc ∷ l) e, w)

-- `process_dpcs` calls the entries of the queue in order, each once, and ends with an empty queue, if
-- the deferred routines leave the queue as it is. One round more than there are entries suffices.
pub process-Drains :
    (fuel : ℕ) (routine : Run → Cpu → Cpu) (c : Cpu) (xs : List ℕ)
    → length xs < fuel
    → ((r : Run) (d : Cpu) (ys : List ℕ) → Holds d ys → Holds (routine r d) ys)
    → Holds c xs
    → Drains xs (process fuel routine c)
process-Drains zero routine c xs lt quiet v = absurd (omega arith)
process-Drains (suc fuel) routine c [] lt quiet v =
    rw (process_stop fuel routine c (pop_empty c v)) (refl, v)
process-Drains (suc fuel) routine c (x ∷ xs) lt quiet v =
    rw (process_round fuel routine c (taken c x) (call_of c x) (pop_dequeues c x xs v).0) (
      before-Drains (call_of c x) xs _ (
        process-Drains fuel routine (routine (call_of c x) (taken c x)) xs (omega arith) quiet
          (quiet (call_of c x) (taken c x) xs (taken-Holds c x xs v))))
