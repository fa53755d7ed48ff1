-- ===== src/ThreadPool.antt =====
-- linux-UDPandThreadPool/threadpool.c: the task queue, and one pass of a worker or of addtask under
-- the lock. The counters do not wrap: they stay below 2^31 for as many calls of addtask.
pub mod Queue
pub mod Order
pub mod System
mod Tests
use linux_c_study.Prelude.{
  ℕ, ◌+◌, ◌-◌, ◌%◌, Bool, true, false, not, ◌&&◌, Option, none, some, List, leb, ◌==◌,
  if◌then◌else◌, set, get_or, replicate,
}

-- PoolTask. `arg` is the slot of the task array that it points to, or `none` for the worker's own
-- copy; task_func is always taskRun.
pub record PoolTask : Type 0 where
  pub tasknum : ℕ
  pub arg : Option ℕ

-- ThreadPool, less its threads, its lock and its conditions, with the global `beginnum`.
pub record Pool : Type 0 where
  pub max_job_num : ℕ
  pub job_num : ℕ
  pub task : List PoolTask
  pub job_push : ℕ
  pub job_pop : ℕ
  pub shutdown : Bool
  pub beginnum : ℕ

-- What malloc leaves in the array is not read before it is written (Queue).
abbrev pub no_task : PoolTask
no_task = record { tasknum = 0; arg = none }

unfoldable pub create_threadpool : ℕ → Pool
create_threadpool maxtasknum = record {
  max_job_num = maxtasknum;
  job_num = 0;
  task = replicate maxtasknum no_task;
  job_push = 0;
  job_pop = 0;
  shutdown = false;
  beginnum = 1000;
}

-- What a worker does when it gets the lock, at the head of its loop or back from
-- pthread_cond_wait: it waits on empty_task; it takes a task, signals empty_task and runs it; or it
-- ends.
pub data Pass : Type 0 where
  sleeps : Pass
  runs : PoolTask → Pass
  exits : Pass

-- job_pop++, job_num--: the task goes to the worker's copy, whose `arg` then points to the copy.
unfoldable pub take_task : Pool → PoolTask × Pool
take_task p = (
  record (get_or p.task (p.job_pop % p.max_job_num) no_task) { arg = none },
  record p { job_pop = p.job_pop + 1; job_num = p.job_num - 1 },
)

-- The pass of thrRun, the pool that it leaves, and whether it signals empty_task.
unfoldable pub thr_run : Pool → Pass × Pool × Bool
thr_run p =
    if (p.job_num == 0) && not p.shutdown
    then (sleeps, p, false)
    else if p.job_num == 0
    then (exits, p, false)
    else let (t, p') = take_task p in if p'.shutdown then (exits, p', true) else (runs t, p', true)

-- The task that addtask stores.
unfoldable pub put_task : Pool → Pool
put_task p =
    let taskpos : ℕ = p.job_push % p.max_job_num in
    record p {
      task = set p.task taskpos (record { tasknum = p.beginnum; arg = some taskpos });
      job_push = p.job_push + 1;
      job_num = p.job_num + 1;
      beginnum = p.beginnum + 1;
    }

-- The pass of addtask with the lock: `none` when it waits on empty_task, for a full queue. When it
-- has stored the task it signals not_empty_task.
unfoldable pub addtask : Pool → Option Pool
addtask p = if leb p.max_job_num p.job_num then none else some (put_task p)

-- destroy_threadpool, as far as the pool goes: it sets `shutdown` without the lock, and signals
-- not_empty_task to all. What follows is left out: the joins, of threads that are detached, and the end
-- of the conditions, the mutex and the memory, which a worker may then still use.
pub destroy_threadpool : Pool → Pool
destroy_threadpool p = record p { shutdown = true }
