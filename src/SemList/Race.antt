-- ===== src/SemList/Race.antt =====
-- linux08/thread_sem.c: nothing keeps the two threads from changing head at the same time.
use linux_c_study.Prelude.{
  ℕ, ◌+◌, ◌-◌, ◌<◌, ◌≡◌, refl, sym, ap, ◌∙◌, ◌≢◌, none, some, arith, lt→ltb,
}
use linux_c_study.NodeList.{Node, Heap, put, put-same, put-other}
use linux_c_study.SemList.{
  making, made, allowed, linked, posting, waiting, admitted, shown, holding, returning, freeing,
  Process, thread_produce, thread_customer, produces, consumes, Reach, here, next,
}
use mathlib.Core.Path.{subst}

module _ (heap : Heap) (p q d sp sc puts gets : ℕ) (n : Node) (free : heap p ≡ none)
    (first : heap q ≡ some n) (open_ : 0 < sp) (ready : 0 < sc) where
  -- Both threads are at the start of their loops, and there is a node and a credit for each.
  abbrev idle : Process
  idle = record {
    heap = heap;
    head = some q;
    sem_produce = sp;
    sem_consumer = sc;
    producer = making;
    consumer = waiting;
    puts = puts;
    gets = gets;
  }

  abbrev one : Node
  one = record { data_ = d; next = none }

  abbrev h1 : Heap
  h1 = put heap p (some one)

  abbrev h2 : Heap
  h2 = put h1 p (some (record one { next = some q }))

  distinct : p ≢ q
  distinct e = ground (arith, ap heap e)

  at_q : h2 q ≡ some n
  at_q = put-other h1 p q _ distinct ∙ put-other heap p q _ distinct ∙ first

  -- The producer has linked its node to the first.
  abbrev linked_to : Process
  linked_to = record idle { heap = h2; sem_produce = sp - 1; producer = linked p }

  linked_to-Reach : Reach idle linked_to
  unfolding thread_produce
  linked_to-Reach =
      let a : thread_produce p d none idle ≡ some (record idle { heap = h1; producer = made p }) =
        refl in
      next
        (next (next here (produces p d none _ (λ e. free) a)) (
          produces p d none (record idle { heap = h1; sem_produce = sp - 1; producer = allowed p })
            (λ e. ground arith) (rw (lt→ltb 0 sp open_, thread_produce) refl)))
        (produces p d none linked_to (λ e. ground arith)
          (rw (put-same heap p (some one), thread_produce) refl))

  -- The consumer has taken the first node, and will free it.
  abbrev taken : Process
  taken = record linked_to {
    head = n.next;
    sem_produce = sp - 1 + 1;
    sem_consumer = sc - 1;
    consumer = freeing q;
    gets = gets + 1;
  }

  taken-Reach : Reach idle taken
  unfolding thread_customer
  taken-Reach =
      let s1 : Process = record linked_to { sem_consumer = sc - 1; consumer = admitted } in
      let s2 : Process = record s1 { consumer = shown } in
      let s3 : Process = record s2 { consumer = holding q } in
      let s4 : Process = record s3 { head = n.next; consumer = returning q; gets = gets + 1 } in
      let r2 : Reach idle s2 =
        next (next linked_to-Reach (consumes s1 (rw (lt→ltb 0 sc ready, thread_customer) refl)))
          (consumes s2 (rw (at_q, thread_customer) refl)) in
      next (next (next r2 (consumes s3 refl)) (consumes s4 (rw (at_q, thread_customer) refl)))
        (consumes taken refl)

  -- The consumer has freed that node, and the producer has set head to its own.
  abbrev crossed : Process
  crossed = record taken {
    heap = put h2 q none;
    head = some p;
    producer = posting;
    consumer = waiting;
    puts = puts + 1;
  }

  crossed-Reach : Reach idle crossed
  unfolding thread_produce thread_customer
  crossed-Reach =
      let s1 : Process = record taken { heap = put h2 q none; consumer = waiting } in
      next (next taken-Reach (consumes s1 refl))
        (produces p d none crossed (λ e. ground arith) refl)

  crossed_dangles : (crossed.heap p ≡ some (record one { next = some q })) × (crossed.heap q ≡ none)
  crossed_dangles =
      (put-other h2 q p none (λ e. distinct (sym e)) ∙ put-same h1 p _, put-same h2 q none)

-- From every state in which both threads are at the start of their loops, with at least a node in the
-- list, a credit for each and some free memory, it can come to pass that the list's first node leads
-- to a node that has been freed: the two threads change head at the same time.
pub list_dangles :
    (s : Process) (p q : ℕ) (n : Node)
    → s.producer ≡ making
    → s.consumer ≡ waiting
    → 0 < s.sem_produce
    → 0 < s.sem_consumer
    → s.head ≡ some q
    → s.heap q ≡ some n
    → s.heap p ≡ none
    → (t : Process) × (m : Node) × Reach s t
      × (t.head ≡ some p)
      × (t.heap p ≡ some m)
      × (m.next ≡ some q)
      × (t.heap q ≡ none)
list_dangles s p q n a b u w h f e =
    let same : idle s.heap p q 0 s.sem_produce s.sem_consumer s.puts s.gets n e f u w ≡ s =
      ground arith in
    let t = crossed s.heap p q 0 s.sem_produce s.sem_consumer s.puts s.gets n e f u w in
    let r = crossed-Reach s.heap p q 0 s.sem_produce s.sem_consumer s.puts s.gets n e f u w in
    let k = crossed_dangles s.heap p q 0 s.sem_produce s.sem_consumer s.puts s.gets n e f u w in
    (t, record { data_ = 0; next = some q }, subst (λ x. Reach x t) same r, refl, k.0, refl, k.1)
