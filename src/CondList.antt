-- ===== src/CondList.antt =====
-- linux08/thread_cond.c: a producer and a consumer of nodes, with a mutex and a condition.
pub mod Moves
pub mod Safety
pub mod Refine
pub mod Late
mod Tests
use linux_c_study.Prelude.{ℕ, ◌≡◌, Bool, true, Option, none, some, List, [], ◌∷◌}
use linux_c_study.NodeList.{Heap, put}

-- The producer allocates; it has a node, and wants the mutex; it holds the mutex; it has released it
-- and will signal.
pub data Producer : Type 0 where
  making : Producer
  made : ℕ → Producer
  pushing : ℕ → Producer
  pushed : Producer

-- The consumer wants the mutex; it holds it, before the test; it waits for the condition; it wants
-- the mutex back; it holds it, behind the test; it has released it and will free its node; it has
-- read through an invalid pointer.
pub data Consumer : Type 0 where
  locking : Consumer
  testing : Consumer
  waiting : Consumer
  woken : Consumer
  taking : Consumer
  freeing : ℕ → Consumer
  dead : Consumer

pub data Owner : Type 0 where
  nobody : Owner
  the_producer : Owner
  the_consumer : Owner

-- The memory, the global head, the mutex, the two threads, and what the consumer has printed, the
-- last first.
pub record Process : Type 0 where
  pub heap : Heap
  pub head : Option ℕ
  pub mutex : Owner
  pub producer : Producer
  pub consumer : Consumer
  pub printed : List ℕ

-- malloc gives p, which holds `old` in its field next, and the data is set.
abbrev pub make : ℕ → ℕ → Option ℕ → Process → Process
make p d old s = record s {
  heap = put s.heap p (some (record { data_ = d; next = old }));
  producer = made p;
}

-- pNode->next = head; head = pNode; and the unlock. `none`: pNode is invalid.
unfoldable pub push : ℕ → Process → Option Process
push p s = elim (s.heap p) [
  | none ↦ none
  | some n ↦ some (record s {
    heap = put s.heap p (some (record n { next = s.head }));
    head = some p;
    mutex = nobody;
    producer = pushed;
  })
]

-- pthread_cond_signal(&cond)
abbrev pub signalled : Consumer → Consumer
signalled waiting = woken
signalled c = c

-- if(head == NULL), with the unlock that pthread_cond_wait begins with.
unfoldable pub test : Process → Process
test s = elim s.head [
  | none ↦ record s { mutex = nobody; consumer = waiting }
  | some p ↦ record s { consumer = taking }
]

-- What the consumer does behind its test, up to its unlock. `none`: head is invalid.
unfoldable pub take_node : Process → Option Process
take_node s = elim s.head [
  | none ↦ none
  | some p ↦ elim (s.heap p) [
    | none ↦ none
    | some n ↦ some (record s {
      head = n.next;
      mutex = nobody;
      consumer = freeing p;
      printed = n.data_ ∷ s.printed;
    })
  ]
]

-- A step of one of the threads. `spurious` says whether pthread_cond_wait may return with no signal.
pub data Step (spurious : Bool) (s : Process) : Process → Type 0 where
  makes :
      (p d : ℕ) (old : Option ℕ)
      → s.producer ≡ making
      → s.heap p ≡ none
      → Step spurious s (make p d old s)
  producer_locks :
      (p : ℕ)
      → s.producer ≡ made p
      → s.mutex ≡ nobody
      → Step spurious s (record s { mutex = the_producer; producer = pushing p })
  pushes : (p : ℕ) (s' : Process) → s.producer ≡ pushing p → push p s ≡ some s' → Step spurious s s'
  signals :
      s.producer ≡ pushed
      → Step spurious s (record s { producer = making; consumer = signalled s.consumer })
  consumer_locks :
      s.consumer ≡ locking
      → s.mutex ≡ nobody
      → Step spurious s (record s { mutex = the_consumer; consumer = testing })
  tests : s.consumer ≡ testing → Step spurious s (test s)
  wakes : spurious ≡ true → s.consumer ≡ waiting → Step spurious s (record s { consumer = woken })
  relocks :
      s.consumer ≡ woken
      → s.mutex ≡ nobody
      → Step spurious s (record s { mutex = the_consumer; consumer = taking })
  takes : (s' : Process) → s.consumer ≡ taking → take_node s ≡ some s' → Step spurious s s'
  dies : s.consumer ≡ taking → take_node s ≡ none → Step spurious s (record s { consumer = dead })
  frees :
      (p : ℕ)
      → s.consumer ≡ freeing p
      → Step spurious s (record s { heap = put s.heap p none; consumer = locking })

pub data Reach (spurious : Bool) (s : Process) : Process → Type 0 where
  here : Reach spurious s s
  next : {t u : Process} → Reach spurious s t → Step spurious t u → Reach spurious s u

abbrev pub start : Process
start = record {
  heap = λ p. none;
  head = none;
  mutex = nobody;
  producer = making;
  consumer = locking;
  printed = [];
}
