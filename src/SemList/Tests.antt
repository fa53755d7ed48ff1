-- ===== src/SemList/Tests.antt =====
-- The two threads of linux08/thread_sem.c.
use linux_c_study.Prelude.{◌+◌, ◌≤◌, ◌<◌, ◌≡◌, refl, none, some, arith, ℕ_discrete}
use linux_c_study.NodeList.{Node, put}
use linux_c_study.SemList.{Process, thread_produce, produces, Reach, here, next, start}
use linux_c_study.SemList.Credits.{producing, consuming, has_got, Reach-bounded}

abbrev two : Node
two = record { data_ = 2; next = none }

-- The producer has put a node with the value 2 at the address 7.
abbrev one_node : Process
one_node = record start {
  heap = put (put start.heap 7 (some two)) 7 (some two);
  head = some 7;
  sem_produce = 4;
  sem_consumer = 1;
  puts = 1;
}

one_node-Reach : Reach start one_node
unfolding thread_produce ℕ_discrete
one_node-Reach =
    next
      (next
        (next
          (next (next here (produces 7 2 none _ (λ e. refl) refl))
            (produces 7 2 none _ (λ e. ground arith) refl))
          (produces 7 2 none _ (λ e. ground arith) refl))
        (produces 7 2 none _ (λ e. ground arith) refl))
      (produces 7 2 none one_node (λ e. ground arith) refl)

Reach-bounded_example :
    (one_node.sem_produce
        + one_node.sem_consumer
        + producing one_node.producer
        + consuming one_node.consumer
      ≡ 5)
    × (one_node.gets ≤ one_node.puts)
    × (one_node.puts ≤ one_node.gets + 5)
    × (consuming one_node.consumer ≡ 1
        → has_got one_node.consumer ≡ 0
        → one_node.gets < one_node.puts)
Reach-bounded_example = Reach-bounded one_node-Reach
