-- ===== src/CondList/Moves.antt =====
-- linux08/thread_cond.c: what a well-formed list is, and what a step of a stack is.
use linux_c_study.Prelude.{
  ℕ, ◌≡◌, refl, ◌≢◌, Bool, true, false, Option, none, some, List, [], ◌∷◌, arith, ◌==◌,
  if◌then◌else◌,
}
use linux_c_study.NodeList.{Node, has, Holds}
use linux_c_study.CondList.{
  Producer, made, pushing, Consumer, locking, testing, waiting, woken, taking, freeing, dead,
  the_producer, the_consumer, Process, signalled, Step, pushes, takes,
}

abbrev pub is_some : Option Node → Bool
is_some none = false
is_some (some n) = true

-- The node that a thread has for itself.
abbrev pub its_node : Producer → Option ℕ
its_node (made p) = some p
its_node (pushing p) = some p
its_node _ = none

abbrev pub taken_node : Consumer → Option ℕ
taken_node (freeing p) = some p
taken_node _ = none

abbrev pub pushes? : Producer → Bool
pushes? (pushing p) = true
pushes? _ = false

abbrev pub inside : Consumer → Bool
inside testing = true
inside taking = true
inside _ = false

-- The list in memory holds the values vs at the addresses ps; a node that a thread has for itself is
-- allocated and not in the list; the thread that is inside has the mutex.
pub record Stored (s : Process) (ps vs : List ℕ) : Type 0 where
  pub holds : Holds s.heap s.head ps vs
  pub its : (p : ℕ) → its_node s.producer ≡ some p → is_some (s.heap p) ≡ true
  pub its_out : (p : ℕ) → its_node s.producer ≡ some p → has p ps ≡ false
  pub taken : (p : ℕ) → taken_node s.consumer ≡ some p → is_some (s.heap p) ≡ true
  pub taken_out : (p : ℕ) → taken_node s.consumer ≡ some p → has p ps ≡ false
  pub apart : (p : ℕ) → its_node s.producer ≡ some p → taken_node s.consumer ≢ some p
  pub producer_in : pushes? s.producer ≡ true → s.mutex ≡ the_producer
  pub consumer_in : inside s.consumer ≡ true → s.mutex ≡ the_consumer

-- An operation of a stack.
pub data Op : Type 0 where
  push_op : ℕ → Op
  pop_op : ℕ → Op

-- A stack after an operation, or none: a pop gives the last value that has been pushed and has not been
-- popped, and there is no other.
abbrev pub perform : Option Op → List ℕ → Option (List ℕ)
perform none vs = some vs
perform (some (push_op d)) vs = some (d ∷ vs)
perform (some (pop_op d)) [] = none
perform (some (pop_op d)) (w ∷ vs) = if d == w then some vs else none

-- The value of the node that the producer links in.
abbrev pub pushed_op : Option Node → Option Op
pushed_op none = none
pushed_op (some n) = some (push_op n.data_)

-- The value that the consumer has printed last.
abbrev pub popped_op : List ℕ → Option Op
popped_op [] = none
popped_op (d ∷ printed) = some (pop_op d)

abbrev pub op_of : {spurious : Bool} {s s' : Process} → Step spurious s s' → Option Op
op_of {s = s} (pushes p s' e h) = pushed_op (s.heap p)
op_of (takes s' e h) = popped_op s'.printed
op_of _ = none

pub record Moved (vs : List ℕ) (o : Option Op) (s' : Process) : Type 0 where
  pub ps : List ℕ
  pub values : List ℕ
  pub stored : Stored s' ps values
  pub move : perform o vs ≡ some values

pub perform-top : (d : ℕ) (vs : List ℕ) → perform (some (pop_op d)) (d ∷ vs) ≡ some vs
perform-top d vs = ground arith

pub taken_node-signalled : (c : Consumer) → taken_node (signalled c) ≡ taken_node c
taken_node-signalled locking = refl
taken_node-signalled testing = refl
taken_node-signalled waiting = refl
taken_node-signalled woken = refl
taken_node-signalled taking = refl
taken_node-signalled (freeing p) = refl
taken_node-signalled dead = refl

pub inside-signalled : (c : Consumer) → inside (signalled c) ≡ inside c
inside-signalled locking = refl
inside-signalled testing = refl
inside-signalled waiting = refl
inside-signalled woken = refl
inside-signalled taking = refl
inside-signalled (freeing p) = refl
inside-signalled dead = refl
