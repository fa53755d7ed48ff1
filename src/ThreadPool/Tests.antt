-- ===== src/ThreadPool/Tests.antt =====
-- The pool of three workers and twenty slots that main creates, and a small one.
use linux_c_study.Prelude.{ℕ, ◌<◌, ◌≡◌, refl, ◌≢◌, List, [], ◌∷◌, ◌++◌, arith, ℕ_discrete}
use linux_c_study.ThreadPool.{
  create_threadpool, thr_run, put_task, addtask, take_task, Pool, PoolTask,
}
use linux_c_study.ThreadPool.Order.{Op, work, add, tasks_run, count_from}
use linux_c_study.ThreadPool.System.{
  no_one, System, asleep, here, next, started, Reach, update, busy, add_done, worker_runs, no_one,
  adding, blocked,
}
use linux_c_study.ThreadPool.System.Served.{ran, added}
use linux_c_study.ThreadPool.System.Fifo.{queued, ran-queued}

abbrev passes : List Op
passes = add ∷ add ∷ work ∷ add ∷ work ∷ work ∷ work ∷ add ∷ []

three_tasks : tasks_run passes (create_threadpool 2) ≡ 1000 ∷ 1001 ∷ 1002 ∷ []
unfolding tasks_run create_threadpool addtask put_task thr_run take_task
three_tasks = refl

abbrev asleep_pool : System
asleep_pool = record (started 20) { workers = λ i. asleep }

abbrev two_added : Pool
two_added = put_task (put_task (create_threadpool 2))

worker_busy : (t : PoolTask) (i : ℕ) → i < 1 → update (started 2).workers 0 (busy t) i ≢ asleep
worker_busy t i lt = ground arith

not_blocked : adding ≢ blocked
not_blocked e = ground arith

-- Two tasks are added, and the only worker starts the first one.
abbrev one_started : Reach 1 (started 2) (record (started 2) {
  pool = (thr_run two_added).1;
  workers = update (started 2).workers 0 (busy (take_task two_added).0);
})
unfolding create_threadpool put_task addtask thr_run take_task ℕ_discrete
one_started =
    next (next (next here (add_done _ refl refl)) (add_done two_added refl refl))
      (worker_runs 0 _ _ _ (omega arith) refl refl (no_one (worker_busy _) not_blocked))

ran-queued_example :
    ran one_started ++ queued (thr_run two_added).1 ≡ count_from 1000 (added one_started)
unfolding create_threadpool put_task thr_run take_task
ran-queued_example = ran-queued (omega arith) one_started refl

one_started-ran : ran one_started ++ 1001 ∷ [] ≡ 1000 ∷ 1001 ∷ []
unfolding ran create_threadpool put_task addtask thr_run take_task ℕ_discrete
one_started-ran = refl
