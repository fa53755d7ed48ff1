-- ===== src/CondList/Late.antt =====
-- linux08/thread_cond.c: a signal that comes late.
use linux_c_study.Prelude.{ℕ, ◌≡◌, refl, false, none, some, List, ◌∷◌, arith}
use linux_c_study.NodeList.{Node, Heap, put, put-same}
use linux_c_study.CondList.{
  making, pushing, pushed, locking, testing, waiting, woken, taking, freeing, dead, nobody,
  the_producer, the_consumer, Process, make, push, test, take_node, makes, producer_locks, pushes,
  signals, consumer_locks, tests, relocks, takes, dies, frees, Reach, here, next,
}
use mathlib.Core.Path.{subst}

-- Both threads at the start of their loops, with an empty list.
abbrev idle : Heap → List ℕ → Process
idle heap printed = record {
  heap = heap;
  head = none;
  mutex = nobody;
  producer = making;
  consumer = locking;
  printed = printed;
}

idle_dies :
    (heap : Heap) (printed : List ℕ) (p d : ℕ)
    → heap p ≡ none
    → (t : Process) × Reach false (idle heap printed) t × (t.consumer ≡ dead)
unfolding push test take_node
idle_dies heap printed p d f =
    let s1 = make p d none (idle heap printed) in
    let s2 : Process = record s1 { mutex = the_producer; producer = pushing p } in
    let n : Node = record { data_ = d; next = none } in
    let s3 : Process = record s2 {
      heap = put s2.heap p (some n);
      head = some p;
      mutex = nobody;
      producer = pushed;
    } in
    let e3 : push p s2 ≡ some s3 = rw (put-same heap p (some n), push) refl in
    let s4 : Process = record s3 { mutex = the_consumer; consumer = testing } in
    let s5 : Process = record s4 { consumer = taking } in
    let s6 : Process = record s5 {
      head = none;
      mutex = nobody;
      consumer = freeing p;
      printed = d ∷ printed;
    } in
    let e6 : take_node s5 ≡ some s6 = rw (put-same s2.heap p (some n), take_node) refl in
    let s7 : Process = record s6 { heap = put s6.heap p none; consumer = locking } in
    let s8 : Process = record s7 { mutex = the_consumer; consumer = testing } in
    let s9 : Process = record s8 { mutex = nobody; consumer = waiting } in
    let s10 : Process = record s9 { producer = making; consumer = woken } in
    let s11 : Process = record s10 { mutex = the_consumer; consumer = taking } in
    let r3 : Reach false (idle heap printed) s3 =
      next (next (next here (makes p d none refl f)) (producer_locks p refl refl))
        (pushes p s3 refl e3) in
    let r6 : Reach false (idle heap printed) s6 =
      next (next (next r3 (consumer_locks refl refl)) (tests refl)) (takes s6 refl e6) in
    let r9 : Reach false (idle heap printed) s9 =
      next (next (next r6 (frees p refl)) (consumer_locks refl refl)) (tests refl) in
    (
      record s11 { consumer = dead },
      next (next (next r9 (signals refl)) (relocks refl refl)) (dies refl refl),
      refl,
    )

-- pthread_cond_wait stands under an if, and the signal comes after the unlock. From every state in
-- which the list is empty, both threads are at the start of their loops and there is memory, it can
-- come to pass, with no spurious wake-up, that the consumer reads through a null pointer: it takes
-- the node before the signal, waits again, and is then woken by the signal of the node that it has
-- taken.
pub late_signal :
    (s : Process) (p d : ℕ)
    → s.head ≡ none
    → s.mutex ≡ nobody
    → s.producer ≡ making
    → s.consumer ≡ locking
    → s.heap p ≡ none
    → (t : Process) × Reach false s t × (t.consumer ≡ dead)
late_signal s p d h m a b f =
    let e : idle s.heap s.printed ≡ s = ground arith in
    subst (λ u. (t : Process) × Reach false u t × (t.consumer ≡ dead)) e
      (idle_dies s.heap s.printed p d f)
