-- ===== src/ThreadPool/System/Served.antt =====
-- What the tasks that the workers of threadpool.c have started say of the pool, in any order of
-- the steps of the threads.
use linux_c_study.Prelude.{
  ℕ, suc, ◌+◌, ◌-◌, ◌≤◌, ◌≡◌, refl, sym, ap, ap₂, ◌∙◌, inl, inr, Bool, true, false, some, List, [],
  ◌∷◌, ◌++◌, arith, leb, Bool-cases, length, length-append,
}
use mathlib.Core.Path.{subst}
use linux_c_study.ThreadPool.{
  PoolTask, Pool, Pass, create_threadpool, sleeps, runs, exits, take_task, thr_run, put_task,
  addtask, destroy_threadpool,
}
use linux_c_study.ThreadPool.Queue.{
  IsValid, create_threadpool-IsValid, put_task-IsValid, addtask-full, addtask-free, thr_run-IsValid,
}
use linux_c_study.ThreadPool.Order.{count_from, take_task-tasknum, count_from-append}
use linux_c_study.ThreadPool.System.{
  System, Signal, no_one, wake_worker, wake_adder, worker_sleeps, worker_runs, worker_exits_signal,
  worker_exits, task_done, add_waits, add_done, destroy, Reach, here, next, started,
}

-- The numbers of the tasks that the workers have started, in that order.
unfoldable pub ran : {n : ℕ} {s t : System} → Reach n s t → List ℕ
ran here = []
ran (next r (worker_runs i p t s' lt w e g)) = ran r ++ t.tasknum ∷ []
ran (next r st) = ran r

-- How many tasks main has put in the queue.
unfoldable pub added : {n : ℕ} {s t : System} → Reach n s t → ℕ
added here = 0
added (next r (add_done p a e)) = suc (added r)
added (next r st) = added r

-- What the log of the tasks started and the count of those added say of the pool.
pub record Served (log : List ℕ) (adds : ℕ) (p : Pool) : Type 0 where
  pub valid : IsValid p
  pub pushed : p.job_push ≡ adds
  pub ordered : log ≡ count_from 1000 (length log)
  pub past : length log ≤ p.job_pop
  pub all : p.shutdown ≡ false → length log ≡ p.job_pop

module _ (p : Pool) where
  thr_run-shutdown : (thr_run p).1.shutdown ≡ p.shutdown
  unfolding thr_run take_task
  thr_run-shutdown = ground arith

  thr_run-job_push : (thr_run p).1.job_push ≡ p.job_push
  unfolding thr_run take_task
  thr_run-job_push = ground arith

  thr_run-job_pop : p.job_pop ≤ (thr_run p).1.job_pop
  unfolding thr_run take_task
  thr_run-job_pop = ground arith

  thr_run-sleeps : {q : Pool} {b : Bool} → thr_run p ≡ (sleeps, q, b) → q ≡ p
  unfolding thr_run take_task
  thr_run-sleeps {q} {b} h = ground arith

  thr_run-exits : {q : Pool} {b : Bool} → thr_run p ≡ (exits, q, b) → p.shutdown ≡ true
  unfolding thr_run take_task
  thr_run-exits {q} {b} h = ground arith

  thr_run-runs :
      {t : PoolTask} {q : Pool} {b : Bool}
      → thr_run p ≡ (runs t, q, b)
      → (p.shutdown ≡ false)
        × (1 ≤ p.job_num)
        × (t ≡ (take_task p).0)
        × (q ≡ record p { job_pop = p.job_pop + 1; job_num = p.job_num - 1 })
  unfolding thr_run take_task
  thr_run-runs {t} {q} {b} h = (ground arith, ground arith, ground arith, ground arith)

thr_run-Served :
    {log : List ℕ} {adds : ℕ} {p q : Pool} {b : Bool}
    → Served log adds p
    → (x : Pass) → thr_run p ≡ (x, q, b)
    → IsValid q × (q.job_push ≡ adds) × (p.job_pop ≤ q.job_pop) × (q.shutdown ≡ p.shutdown)
thr_run-Served {log} {adds} {p} {q} {b} v x h =
    let e : (thr_run p).1 ≡ q = ap (λ (y : Pass × Pool × Bool). y.1) h in
    (
      subst IsValid e (thr_run-IsValid p v.valid),
      sym (ap (λ (y : Pool). y.job_push) e) ∙ thr_run-job_push p ∙ v.pushed,
      subst (λ (y : Pool). p.job_pop ≤ y.job_pop) e (thr_run-job_pop p),
      sym (ap (λ (y : Pool). y.shutdown) e) ∙ thr_run-shutdown p,
    )

sleeps-Served :
    {log : List ℕ} {adds : ℕ} {p q : Pool} {b : Bool}
    → Served log adds p
    → thr_run p ≡ (sleeps, q, b)
    → Served log adds q
sleeps-Served {log} {adds} {p} {q} {b} v h = rw (thr_run-sleeps p {q = q} {b = b} h) v

exits-Served :
    {log : List ℕ} {adds : ℕ} {p q : Pool} {b : Bool}
    → Served log adds p
    → thr_run p ≡ (exits, q, b)
    → Served log adds q
exits-Served {log} {adds} {p} {q} {b} v h =
    let (valid, pushed, pop, down) = thr_run-Served {q = q} {b = b} v exits h in
    record {
      valid = valid;
      pushed = pushed;
      ordered = v.ordered;
      past = omega (arith, v.past, pop);
      all = λ up. cc (thr_run-exits p {q = q} {b = b} h);
    }

runs-Served :
    {log : List ℕ} {adds : ℕ} {p q : Pool} {t : PoolTask} {b : Bool}
    → Served log adds p
    → thr_run p ≡ (runs t, q, b)
    → Served (log ++ t.tasknum ∷ []) adds q
runs-Served {log} {adds} {p} {q} {t} {b} v h =
    let (up, held, which, pool) = thr_run-runs p {t = t} {q = q} {b = b} h in
    let (valid, pushed, pop, down) = thr_run-Served {q = q} {b = b} v (runs t) h in
    let popped : q.job_pop ≡ p.job_pop + 1 = ap (λ (y : Pool). y.job_pop) pool in
    let number : t.tasknum ≡ 1000 + length log =
      ap (λ (y : PoolTask). y.tasknum) which
      ∙ take_task-tasknum p v.valid held
      ∙ omega (arith, v.all up) in
    let len : length (log ++ t.tasknum ∷ []) ≡ length log + 1 =
      length-append log (t.tasknum ∷ []) in
    record {
      valid = valid;
      pushed = pushed;
      ordered =
          rw len
            (ap₂ (λ xs k. xs ++ k ∷ []) v.ordered number ∙ count_from-append 1000 (length log) 1);
      past = omega (arith, v.past, len, popped);
      all = λ z. omega (arith, v.all up, len, popped);
    }

addtask-Served :
    {log : List ℕ} {adds : ℕ} {p q : Pool}
    → Served log adds p
    → addtask p ≡ some q
    → Served log (suc adds) q
unfolding put_task
addtask-Served {log} {adds} {p} {q} v h = elim (Bool-cases (leb p.max_job_num p.job_num)) [
  | inl full ↦ cc (addtask-full p full)
  | inr free ↦
      let e : put_task p ≡ q = cc (addtask-free p free) in
      subst (Served log (suc adds)) e (record {
        valid = put_task-IsValid p v.valid (ground arith);
        pushed = omega (arith, v.pushed);
        ordered = v.ordered;
        past = v.past;
        all = v.all;
      })
]

destroy-Served :
    {log : List ℕ} {adds : ℕ} {p : Pool}
    → Served log adds p
    → Served log adds (destroy_threadpool p)
unfolding destroy_threadpool
destroy-Served {log} {adds} {p} v = record {
  valid = record {
    room = v.valid.room;
    slots = v.valid.slots;
    balance = v.valid.balance;
    bounded = v.valid.bounded;
    numbered = v.valid.numbered;
    held = v.valid.held;
  };
  pushed = v.pushed;
  ordered = v.ordered;
  past = v.past;
  all = λ up. absurd (ground arith);
}

Signal-pool : {n : ℕ} {s s' : System} → Signal n s s' → s'.pool ≡ s.pool
Signal-pool (no_one a b) = refl
Signal-pool (wake_worker i a b) = refl
Signal-pool (wake_adder a) = refl

pub Reach-Served :
    {n maxtasknum : ℕ} {s : System}
    → 1 ≤ maxtasknum
    → (r : Reach n (started maxtasknum) s) → Served (ran r) (added r) s.pool
unfolding ran added create_threadpool
Reach-Served {n} {maxtasknum} {s} h here = record {
  valid = create_threadpool-IsValid maxtasknum h;
  pushed = refl;
  ordered = refl;
  past = omega arith;
  all = λ up. refl;
}
Reach-Served h (next r (worker_sleeps i p lt w e)) = sleeps-Served (Reach-Served h r) e
Reach-Served h (next r (worker_runs i p t s' lt w e g)) =
    rw (Signal-pool g) (runs-Served (Reach-Served h r) e)
Reach-Served h (next r (worker_exits_signal i p s' lt w e g)) =
    rw (Signal-pool g) (exits-Served (Reach-Served h r) e)
Reach-Served h (next r (worker_exits i p lt w e)) = exits-Served (Reach-Served h r) e
Reach-Served h (next r (task_done i t lt w)) = Reach-Served h r
Reach-Served h (next r (add_waits a e)) = Reach-Served h r
Reach-Served h (next r (add_done p a e)) = addtask-Served (Reach-Served h r) e
Reach-Served h (next r destroy) = destroy-Served (Reach-Served h r)
