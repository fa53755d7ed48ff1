-- ===== src/ThreadPool/System.antt =====
-- The threads of threadpool.c, and the two conditions that they wait on and signal. There are no
-- spurious wake-ups here: a thread leaves pthread_cond_wait only after a signal.
pub mod Sleep
pub mod Served
pub mod Fifo
use linux_c_study.Prelude.{ℕ, ◌<◌, ◌≡◌, ◌≢◌, true, false, none, some, ℕ_discrete}
use mathlib.Core.Logic.{ite}
use linux_c_study.ThreadPool.{
  PoolTask, Pool, create_threadpool, sleeps, runs, exits, thr_run, addtask, destroy_threadpool,
}

-- A worker competes for the lock, waits on empty_task, runs a task, or has ended.
pub data Worker : Type 0 where
  ready : Worker
  asleep : Worker
  busy : PoolTask → Worker
  gone : Worker

-- main: it is in addtask and competes for the lock, or waits on empty_task there.
pub data Adder : Type 0 where
  adding : Adder
  blocked : Adder

pub record System : Type 0 where
  pub pool : Pool
  pub workers : ℕ → Worker
  pub adder : Adder

abbrev pub update : (ℕ → Worker) → ℕ → Worker → ℕ → Worker
update ws i w j = ite (ℕ_discrete i j) w (ws j)

-- pthread_cond_signal(&empty_task): one of the threads that wait on it goes on to the lock, if any.
pub data Signal (n : ℕ) (s : System) : System → Type 0 where
  no_one : ((i : ℕ) → i < n → s.workers i ≢ asleep) → s.adder ≢ blocked → Signal n s s
  wake_worker :
      (i : ℕ)
      → i < n
      → s.workers i ≡ asleep
      → Signal n s (record s { workers = update s.workers i ready })
  wake_adder : s.adder ≡ blocked → Signal n s (record s { adder = adding })

-- A worker that has taken a task unlocks and then calls it; nothing is shared in between, so that both
-- are one step here, and `busy` is from the taking on.
--
-- A step of one of `n` workers or of main. A signal of not_empty_task, and a broadcast of it, wake
-- nobody: no thread ever waits on it.
pub data Step (n : ℕ) (s : System) : System → Type 0 where
  worker_sleeps :
      (i : ℕ) (p : Pool)
      → i < n
      → s.workers i ≡ ready
      → thr_run s.pool ≡ (sleeps, p, false)
      → Step n s (record s { pool = p; workers = update s.workers i asleep })
  worker_runs :
      (i : ℕ) (p : Pool) (t : PoolTask) (s' : System)
      → i < n
      → s.workers i ≡ ready
      → thr_run s.pool ≡ (runs t, p, true)
      → Signal n (record s { pool = p; workers = update s.workers i (busy t) }) s'
      → Step n s s'
  worker_exits_signal :
      (i : ℕ) (p : Pool) (s' : System)
      → i < n
      → s.workers i ≡ ready
      → thr_run s.pool ≡ (exits, p, true)
      → Signal n (record s { pool = p; workers = update s.workers i gone }) s'
      → Step n s s'
  worker_exits :
      (i : ℕ) (p : Pool)
      → i < n
      → s.workers i ≡ ready
      → thr_run s.pool ≡ (exits, p, false)
      → Step n s (record s { pool = p; workers = update s.workers i gone })
  task_done :
      (i : ℕ) (t : PoolTask)
      → i < n
      → s.workers i ≡ busy t
      → Step n s (record s { workers = update s.workers i ready })
  add_waits : s.adder ≡ adding → addtask s.pool ≡ none → Step n s (record s { adder = blocked })
  add_done :
      (p : Pool) → s.adder ≡ adding → addtask s.pool ≡ some p → Step n s (record s { pool = p })
  destroy : Step n s (record s { pool = destroy_threadpool s.pool })

pub data Reach (n : ℕ) (s : System) : System → Type 0 where
  here : Reach n s s
  next : {t u : System} → Reach n s t → Step n t u → Reach n s u

-- create_threadpool: all workers are about to lock.
abbrev pub started : ℕ → System
started maxtasknum = record {
  pool = create_threadpool maxtasknum;
  workers = λ i. ready;
  adder = adding;
}
