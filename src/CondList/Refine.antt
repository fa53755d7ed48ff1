-- ===== src/CondList/Refine.antt =====
-- linux08/thread_cond.c: in every run the list is a stack, and no node is touched that is not there.
use linux_c_study.Prelude.{
  ℕ, ◌≡◌, refl, sym, ap, ◌∙◌, Bool, true, Option, none, some, List, [], arith,
}
use linux_c_study.NodeList.{nil}
use linux_c_study.CondList.{
  pushing, testing, woken, taking, freeing, dead, the_consumer, Process, take_node, Step, makes,
  producer_locks, pushes, signals, consumer_locks, tests, wakes, relocks, takes, dies, frees, Reach,
  here, next, start,
}
use linux_c_study.CondList.Safety.{
  make-Stored, push-Stored, take_node-none, moves_on-Stored, test-Stored, take-Stored, free-Stored,
}
use linux_c_study.CondList.Moves.{
  Stored, Moved, op_of, perform, is_some, taken_node, its_node, taken_node-signalled,
  inside-signalled,
}

module _ {s : Process} {ps vs : List ℕ} (v : Stored s ps vs) where
  stays : {s' : Process} → Stored s' ps vs → Moved vs none s'
  stays w = record { ps = ps; values = vs; stored = w; move = refl }

  Step-Moved : {spurious : Bool} {s' : Process} (t : Step spurious s s') → Moved vs (op_of t) s'
  Step-Moved (makes p d old e free) = stays (make-Stored v p d old e free)
  Step-Moved (producer_locks p e m) = stays (record {
    holds = v.holds;
    its = λ q i. ground (arith, v.its q, e);
    its_out = λ q i. ground (arith, v.its_out q, e);
    taken = v.taken;
    taken_out = v.taken_out;
    apart = λ q i. ground (arith, v.apart q, e);
    producer_in = λ i. refl;
    consumer_in = λ i. ground (arith, v.consumer_in i);
  })
  Step-Moved (pushes p s' e h) = push-Stored v p s' e h
  Step-Moved (signals e) = stays (record {
    holds = v.holds;
    its = λ q i. ground arith;
    its_out = λ q i. ground arith;
    taken = λ q i. v.taken q (sym (taken_node-signalled s.consumer) ∙ i);
    taken_out = λ q i. v.taken_out q (sym (taken_node-signalled s.consumer) ∙ i);
    apart = λ q i. ground arith;
    producer_in = λ i. ground arith;
    consumer_in = λ i. v.consumer_in (sym (inside-signalled s.consumer) ∙ i);
  })
  Step-Moved (consumer_locks e m) = stays (
      moves_on-Stored v the_consumer testing refl (λ i. ground (arith, v.producer_in i))
        (λ i. refl))
  Step-Moved (tests e) = stays (test-Stored v e)
  Step-Moved (wakes t e) =
      stays (moves_on-Stored v s.mutex woken refl v.producer_in (λ i. ground arith))
  Step-Moved (relocks e m) = stays (
      moves_on-Stored v the_consumer taking refl (λ i. ground (arith, v.producer_in i)) (λ i. refl))
  Step-Moved (takes s' e h) = take-Stored v s' e h
  Step-Moved (dies e h) =
      stays (moves_on-Stored v s.mutex dead refl v.producer_in (λ i. ground arith))
  Step-Moved (frees p e) = stays (free-Stored v p e)

-- What a stack holds after the pushes and pops of a run: the producer pushes the value of the node that
-- it links in, and the consumer pops what it prints. `none`: a value has been popped that was not the
-- last one.
abbrev pub replay : {spurious : Bool} {s : Process} → Reach spurious start s → Option (List ℕ)
replay here = some []
replay (next r t) = elim (replay r) [ none ↦ none | some vs ↦ perform (op_of t) vs ]

-- The list in memory is well formed, and it is the stack of the run.
pub record Stack {spurious : Bool} {s : Process} (r : Reach spurious start s) : Type 0 where
  pub ps : List ℕ
  pub values : List ℕ
  pub stored : Stored s ps values
  pub replayed : replay r ≡ some values

start-Stack : {spurious : Bool} → Stack {spurious = spurious} here
start-Stack = record {
  ps = [];
  values = [];
  stored = record {
    holds = nil;
    its = λ p i. ground arith;
    its_out = λ p i. refl;
    taken = λ p i. ground arith;
    taken_out = λ p i. refl;
    apart = λ p i. ground arith;
    producer_in = λ i. ground arith;
    consumer_in = λ i. ground arith;
  };
  replayed = refl;
}

-- Whatever the order of the threads' steps, and with spurious wake-ups or without: when the producer's
-- linking in of a node counts as a push of the node's value and the consumer's printing of a value as
-- a pop, each pop gives the value on the top of the stack, the one that has been pushed last and not
-- popped; and the list in memory is well formed and holds the values that are on the stack, the top
-- first.
pub Reach-Stack : {spurious : Bool} {s : Process} (r : Reach spurious start s) → Stack r
Reach-Stack here = start-Stack
Reach-Stack (next r t) =
    let k = Reach-Stack r in
    let m = Step-Moved k.stored t in
    record { ps = m.ps; values = m.values; stored = m.stored; replayed = rw (k.replayed) m.move }

-- In every run the node that the consumer frees is allocated, so is the one that the producer links
-- in, and when the consumer reads through an invalid head then head is null.
pub Reach-valid :
    {spurious : Bool} {s : Process}
    → Reach spurious start s
    → ((p : ℕ) → s.consumer ≡ freeing p → is_some (s.heap p) ≡ true)
      × ((p : ℕ) → s.producer ≡ pushing p → is_some (s.heap p) ≡ true)
      × (take_node s ≡ none → s.head ≡ none)
Reach-valid r =
    let v = (Reach-Stack r).stored in
    (λ p e. v.taken p (ap taken_node e), λ p e. v.its p (ap its_node e), take_node-none v)
