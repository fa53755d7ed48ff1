-- ===== src/ThreadPool/System/Sleep.antt =====
-- Workers that sleep are not woken by addtask, nor by destroy_threadpool.
use linux_c_study.Prelude.{ℕ, zero, suc, ◌≤◌, ◌<◌, ◌≡◌, refl, ap, ◌∙◌, false, arith}
use linux_c_study.ThreadPool.{create_threadpool, sleeps, thr_run}
use linux_c_study.ThreadPool.System.{
  ready, asleep, System, update, Step, worker_sleeps, worker_runs, worker_exits_signal,
  worker_exits, task_done, add_waits, add_done, destroy, Reach, here, next, started,
}

-- All of the n workers wait on empty_task.
abbrev pub AllAsleep : ℕ → System → Type 0
AllAsleep n s = (i : ℕ) → i < n → s.workers i ≡ asleep

Step-AllAsleep : {n : ℕ} {s t : System} → Step n s t → AllAsleep n s → AllAsleep n t
Step-AllAsleep (worker_sleeps i p lt r e) a = cc (a i lt)
Step-AllAsleep (worker_runs i p t s' lt r e g) a = cc (a i lt)
Step-AllAsleep (worker_exits_signal i p s' lt r e g) a = cc (a i lt)
Step-AllAsleep (worker_exits i p lt r e) a = cc (a i lt)
Step-AllAsleep (task_done i t lt b) a = cc (a i lt)
Step-AllAsleep (add_waits e f) a = a
Step-AllAsleep (add_done p e f) a = a
Step-AllAsleep destroy a = a

-- Once all the workers wait, they wait for ever: no step of main wakes one of them, however many
-- tasks addtask puts in the queue and also when the pool is destroyed.
pub Reach-AllAsleep : {n : ℕ} {s t : System} → AllAsleep n s → Reach n s t → AllAsleep n t
Reach-AllAsleep a here = a
Reach-AllAsleep a (next r st) = Step-AllAsleep st (Reach-AllAsleep a r)

-- The first k workers have gone to sleep on the empty queue.
record Asleep (n maxtasknum k : ℕ) : Type 0 where
  system : System
  reach : Reach n (started maxtasknum) system
  pool : system.pool ≡ create_threadpool maxtasknum
  slept : (i : ℕ) → i < k → system.workers i ≡ asleep
  others : (i : ℕ) → k ≤ i → system.workers i ≡ ready

empty_queue :
    (maxtasknum : ℕ)
    → thr_run (create_threadpool maxtasknum) ≡ (sleeps, create_threadpool maxtasknum, false)
unfolding thr_run create_threadpool
empty_queue maxtasknum = refl

sleep_all : (n maxtasknum k : ℕ) → k ≤ n → Asleep n maxtasknum k
sleep_all n maxtasknum zero h = record {
  system = started maxtasknum;
  reach = here;
  pool = refl;
  slept = λ i lt. absurd (omega arith);
  others = λ i le. refl;
}
sleep_all n maxtasknum (suc k) h =
    let before = sleep_all n maxtasknum k (omega arith) in
    record {
      system = record (before.system) {
        pool = create_threadpool maxtasknum;
        workers = update before.system.workers k asleep;
      };
      reach = next before.reach (
          worker_sleeps k (create_threadpool maxtasknum) (omega arith)
            (before.others k (omega arith)) (ap thr_run before.pool ∙ empty_queue maxtasknum));
      pool = refl;
      slept = λ i lt. ground (arith, before.slept i);
      others = λ i le. ground (arith, before.others i);
    }

-- Of any number of workers, all can get the lock before the first task is added, and then they all
-- wait.
pub pool_stalls : (n maxtasknum : ℕ) → (s : System) × Reach n (started maxtasknum) s × AllAsleep n s
pool_stalls n maxtasknum =
    let d = sleep_all n maxtasknum n (omega arith) in (d.system, d.reach, d.slept)
