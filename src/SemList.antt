-- ===== src/SemList.antt =====
-- linux08/thread_sem.c: a producer and a consumer of nodes, with two semaphores and no mutex.
pub mod Credits
pub mod Race
mod Tests
use linux_c_study.Prelude.{ℕ, ◌+◌, ◌-◌, ◌≡◌, Option, none, some, ltb, if◌then◌else◌}
use linux_c_study.NodeList.{Node, Heap, put}

-- The producer allocates; it waits for sem_produce; it has got it; it has set pNode->next; it has set
-- head and will post sem_consumer.
pub data Producer : Type 0 where
  making : Producer
  made : ℕ → Producer
  allowed : ℕ → Producer
  linked : ℕ → Producer
  posting : Producer

-- The consumer waits for sem_consumer; it has got it; it has printed; it has set pNode; it has moved
-- head on and will post sem_produce; it will free pNode; it has read through an invalid pointer.
pub data Consumer : Type 0 where
  waiting : Consumer
  admitted : Consumer
  shown : Consumer
  holding : ℕ → Consumer
  returning : ℕ → Consumer
  freeing : ℕ → Consumer
  dead : Consumer

-- The memory, the global head, the two semaphores, the threads, and how often head has been set by
-- each of them.
pub record Process : Type 0 where
  pub heap : Heap
  pub head : Option ℕ
  pub sem_produce : ℕ
  pub sem_consumer : ℕ
  pub producer : Producer
  pub consumer : Consumer
  pub puts : ℕ
  pub gets : ℕ

-- The next step of the producer, where malloc gives p, which holds `old` in its field next, and
-- rand() % 3 gives d. `none`: it waits, or its node is invalid.
unfoldable pub thread_produce : ℕ → ℕ → Option ℕ → Process → Option Process
thread_produce p d old s = elim s.producer [
  | making ↦ some (record s {
    heap = put s.heap p (some (record { data_ = d; next = old }));
    producer = made p;
  })
  | made q ↦
      if ltb 0 s.sem_produce
      then some (record s { sem_produce = s.sem_produce - 1; producer = allowed q })
      else none
  | allowed q ↦ elim (s.heap q) [
    | none ↦ none
    | some n ↦
        some (record s {
          heap = put s.heap q (some (record n { next = s.head }));
          producer = linked q;
        })
  ]
  | linked q ↦ some (record s { head = some q; producer = posting; puts = s.puts + 1 })
  | posting ↦ some (record s { sem_consumer = s.sem_consumer + 1; producer = making })
]

-- head->data or head->next.
abbrev pub at_head : Process → Option Node
at_head s = elim s.head [ none ↦ none | some p ↦ s.heap p ]

-- The next step of the consumer; `none`: it waits, or is dead.
unfoldable pub thread_customer : Process → Option Process
thread_customer s = elim s.consumer [
  | waiting ↦
      if ltb 0 s.sem_consumer
      then some (record s { sem_consumer = s.sem_consumer - 1; consumer = admitted })
      else none
  | admitted ↦ elim (at_head s) [
    | none ↦ some (record s { consumer = dead })
    | some n ↦ some (record s { consumer = shown })
  ]
  | shown ↦ elim s.head [
    | none ↦ some (record s { consumer = dead })
    | some p ↦ some (record s { consumer = holding p })
  ]
  | holding p ↦ elim (at_head s) [
    | none ↦ some (record s { consumer = dead })
    | some n ↦ some (record s { head = n.next; consumer = returning p; gets = s.gets + 1 })
  ]
  | returning p ↦ some (record s { sem_produce = s.sem_produce + 1; consumer = freeing p })
  | freeing p ↦ some (record s { heap = put s.heap p none; consumer = waiting })
  | dead ↦ none
]

-- A step of one of them. malloc gives an address that is free.
pub data Step (s : Process) : Process → Type 0 where
  produces :
      (p d : ℕ) (old : Option ℕ) (s' : Process)
      → (s.producer ≡ making → s.heap p ≡ none)
      → thread_produce p d old s ≡ some s'
      → Step s s'
  consumes : (s' : Process) → thread_customer s ≡ some s' → Step s s'

pub data Reach (s : Process) : Process → Type 0 where
  here : Reach s s
  next : {t u : Process} → Reach s t → Step t u → Reach s u

-- main: sem_init(&sem_produce, 0, 5) and sem_init(&sem_consumer, 0, 0).
abbrev pub start : Process
start = record {
  heap = λ p. none;
  head = none;
  sem_produce = 5;
  sem_consumer = 0;
  producer = making;
  consumer = waiting;
  puts = 0;
  gets = 0;
}
