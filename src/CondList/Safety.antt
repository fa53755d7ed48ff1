-- ===== src/CondList/Safety.antt =====
-- linux08/thread_cond.c: the list stays well formed, and works as a stack.
use linux_c_study.Prelude.{
  ℕ, ◌≡◌, ap, ◌∙◌, inl, inr, true, Option, none, some, List, ◌∷◌, arith, ℕ_discrete, Option-cases,
}
use linux_c_study.NodeList.{
  put, put-same, cons, put-Holds, has-not_of_free, Holds-some, Holds-First,
}
use linux_c_study.CondList.{
  making, pushing, pushed, Consumer, locking, testing, taking, freeing, Owner, nobody, the_producer,
  the_consumer, Process, make, push, test, take_node,
}
use mathlib.Core.Path.{subst}
use linux_c_study.CondList.Moves.{
  taken_node, pushes?, inside, Stored, Moved, perform-top, pushed_op, popped_op, pop_op, perform,
}

module _ {s : Process} {ps vs : List ℕ} (v : Stored s ps vs) where
  pub make-Stored :
      (p d : ℕ) (old : Option ℕ)
      → s.producer ≡ making
      → s.heap p ≡ none
      → Stored (make p d old s) ps vs
  unfolding ℕ_discrete
  make-Stored p d old e free =
      let out = has-not_of_free s.heap p free v.holds in
      record {
        holds = put-Holds s.heap p _ out v.holds;
        its = λ q i. ground arith;
        its_out = λ q i. ground (arith, out);
        taken = λ q i. ground (arith, v.taken q i);
        taken_out = v.taken_out;
        apart = λ q i j. ground (arith, v.taken q j);
        producer_in = λ i. ground arith;
        consumer_in = v.consumer_in;
      }

  pub push-Stored :
      (p : ℕ) (s' : Process)
      → s.producer ≡ pushing p
      → push p s ≡ some s'
      → Moved vs (pushed_op (s.heap p)) s'
  unfolding push ℕ_discrete
  push-Stored p s' e h = elim (Option-cases (s.heap p)) [
    | inl k ↦ absurd (ground arith)
    | inr (n, k) ↦
        let t : Process = record s {
          heap = put s.heap p (some (record n { next = s.head }));
          head = some p;
          mutex = nobody;
          producer = pushed;
        } in
        let q : t ≡ s' = ground arith in
        let out = v.its_out p (ground arith) in
        subst (Moved vs (pushed_op (s.heap p))) q (record {
          ps = p ∷ ps;
          values = n.data_ ∷ vs;
          stored = record {
            holds = cons (put-same s.heap p _) out (put-Holds s.heap p _ out v.holds);
            its = λ r i. ground arith;
            its_out = λ r i. ground arith;
            taken = λ r i. ground (arith, v.taken r i);
            taken_out = λ r i. ground (arith, v.taken_out r i, v.apart p, e);
            apart = λ r i. ground arith;
            producer_in = λ i. ground arith;
            consumer_in = λ i. ground (arith, v.consumer_in i, v.producer_in);
          };
          move = ap (λ o. perform (pushed_op o) vs) k;
        })
  ]

  -- head, and its node, can be read wherever head is not null.
  pub take_node-none : take_node s ≡ none → s.head ≡ none
  unfolding take_node
  take_node-none e = elim (Option-cases s.head) [
    | inl k ↦ k
    | inr (p, k) ↦ let f = Holds-some s.heap p v.holds k in absurd (ground (arith, k, f.1))
  ]

  pub take-Stored :
      (s' : Process)
      → s.consumer ≡ taking
      → take_node s ≡ some s'
      → Moved vs (popped_op s'.printed) s'
  unfolding take_node
  take-Stored s' e h = elim (Option-cases s.head) [
    | inl k ↦ absurd (ground arith)
    | inr (p, k) ↦
        let f = Holds-some s.heap p v.holds k in
        let n = f.0 in
        let b = Holds-First s.heap p n v.holds k f.1 in
        let t : Process = record s {
          head = n.next;
          mutex = nobody;
          consumer = freeing p;
          printed = n.data_ ∷ s.printed;
        } in
        let q : t ≡ s' = ground (arith, k, f.1) in
        subst (λ (z : Process). Moved vs (popped_op z.printed) z) q
          (record {
            ps = b.rest;
            values = b.values;
            stored = record {
              holds = b.holds;
              its = v.its;
              its_out = λ r i. ground (arith, v.its_out r i, b.addresses);
              taken = λ r i. ground (arith, f.1);
              taken_out = λ r i. ground (arith, b.out);
              apart = λ r i j. ground (arith, v.its_out r i, b.addresses);
              producer_in = λ i. ground (arith, v.producer_in i, v.consumer_in, e);
              consumer_in = λ i. ground arith;
            };
            move = ap (perform (some (pop_op n.data_))) b.split ∙ perform-top n.data_ b.values;
          })
  ]

  pub test-Stored : s.consumer ≡ testing → Stored (test s) ps vs
  unfolding test
  test-Stored e = elim (Option-cases s.head) [
    | inl k ↦
        rw (k, test)
          (record {
            holds = v.holds;
            its = v.its;
            its_out = v.its_out;
            taken = λ r i. ground arith;
            taken_out = λ r i. ground arith;
            apart = λ r i. ground arith;
            producer_in = λ i. ground (arith, v.producer_in i, v.consumer_in, e);
            consumer_in = λ i. ground arith;
          })
    | inr (p, k) ↦
        rw (k, test)
          (record {
            holds = v.holds;
            its = v.its;
            its_out = v.its_out;
            taken = λ r i. ground arith;
            taken_out = λ r i. ground arith;
            apart = λ r i. ground arith;
            producer_in = v.producer_in;
            consumer_in = λ i. ground (arith, v.consumer_in, e);
          })
  ]

  pub free-Stored :
      (p : ℕ)
      → s.consumer ≡ freeing p
      → Stored (record s { heap = put s.heap p none; consumer = locking }) ps vs
  unfolding ℕ_discrete
  free-Stored p e =
      let out = v.taken_out p (ground arith) in
      record {
        holds = put-Holds s.heap p none out v.holds;
        its = λ q i. ground (arith, v.its q i, v.apart q i, e);
        its_out = v.its_out;
        taken = λ q i. ground arith;
        taken_out = λ q i. ground arith;
        apart = λ q i. ground arith;
        producer_in = v.producer_in;
        consumer_in = λ i. ground arith;
      }

  -- A step of the consumer that touches neither the memory nor the list.
  pub moves_on-Stored :
      (m : Owner) (c : Consumer)
      → taken_node c ≡ none
      → (pushes? s.producer ≡ true → m ≡ the_producer)
      → (inside c ≡ true → m ≡ the_consumer)
      → Stored (record s { mutex = m; consumer = c }) ps vs
  moves_on-Stored m c e p i = record {
    holds = v.holds;
    its = v.its;
    its_out = v.its_out;
    taken = λ r j. ground arith;
    taken_out = λ r j. ground arith;
    apart = λ r j. ground arith;
    producer_in = p;
    consumer_in = i;
  }
