-- ===== src/CondList/Tests.antt =====
-- The two threads of linux08/thread_cond.c.
use linux_c_study.Prelude.{refl, true, none, some, ℕ_discrete}
use linux_c_study.NodeList.{put}
use linux_c_study.CondList.{
  pushed, pushing, nobody, the_producer, Process, make, push, makes, producer_locks, pushes, Reach,
  here, next, start,
}
use linux_c_study.CondList.Refine.{Stack, Reach-Stack}

-- The producer is about to link in a node with the value 2.
abbrev about_to_push : Process
about_to_push = record (make 7 2 none start) { mutex = the_producer; producer = pushing 7 }

about_to_push-Reach : Reach true start about_to_push
about_to_push-Reach = next (next here (makes 7 2 none refl refl)) (producer_locks 7 refl refl)

abbrev one_node : Process
one_node = record about_to_push {
  heap = put about_to_push.heap 7 (some (record { data_ = 2; next = none }));
  head = some 7;
  mutex = nobody;
  producer = pushed;
}

one_node-Reach : Reach true start one_node
unfolding push ℕ_discrete
one_node-Reach = next about_to_push-Reach (pushes 7 one_node refl refl)

Reach-Stack_example : Stack one_node-Reach
Reach-Stack_example = Reach-Stack one_node-Reach
