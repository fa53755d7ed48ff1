-- ===== src/ThreadPool/System/Fifo.antt =====
-- What the workers of threadpool.c run: the tasks that main adds, in that order.
use linux_c_study.Prelude.{
  ℕ, zero, suc, ◌+◌, ◌%◌, ◌≤◌, ◌≡◌, refl, sym, ap, ap₂, ◌∙◌, false, List, [], ◌∷◌, ◌++◌, arith,
  length, get_or,
}
use linux_c_study.ThreadPool.{Pool, no_task}
use linux_c_study.ThreadPool.Queue.{IsValid}
use linux_c_study.ThreadPool.Order.{count_from, count_from-append}
use linux_c_study.ThreadPool.System.{System, Reach, started}
use linux_c_study.ThreadPool.System.Served.{ran, added, Reach-Served}

-- The numbers in `c` slots of the ring, from the k-th task on.
abbrev slots : Pool → ℕ → ℕ → List ℕ
slots p k zero = []
slots p k (suc c) = (get_or p.task (k % p.max_job_num) no_task).tasknum ∷ slots p (k + 1) c

-- The numbers of the tasks that wait in the ring, the first one that goes out in front.
abbrev pub queued : Pool → List ℕ
queued p = slots p p.job_pop p.job_num

slots-count_from :
    (p : Pool) (k c : ℕ)
    → IsValid p
    → p.job_pop ≤ k
    → k + c ≤ p.job_push
    → slots p k c ≡ count_from (1000 + k) c
slots-count_from p k zero v lo hi = refl
slots-count_from p k (suc c) v lo hi =
    rw (v.held k lo (omega arith), slots-count_from p (k + 1) c v (omega arith) (omega arith))
      (ap (λ j. (1000 + k) ∷ count_from j c) (omega arith))

-- In whatever order the workers and main get the lock, sleep, wake and finish their tasks, from
-- create_threadpool with at least one slot on: as long as the pool is not destroyed, the tasks that
-- the workers have taken out of the ring under the lock, each of which its worker then calls, followed
-- by those in the ring from job_pop on, are all that main has added, in that order.
pub ran-queued :
    {n maxtasknum : ℕ} {s : System}
    → 1 ≤ maxtasknum
    → (r : Reach n (started maxtasknum) s) → s.pool.shutdown ≡ false
    → ran r ++ queued s.pool ≡ count_from 1000 (added r)
ran-queued {n} {maxtasknum} {s} h r up =
    let v = Reach-Served h r in
    let p = s.pool in
    let len : length (ran r) ≡ p.job_pop = v.all up in
    let total : length (ran r) + p.job_num ≡ added r =
      omega (arith, len, v.valid.balance, v.pushed) in
    ap₂ ◌++◌ v.ordered (
      slots-count_from p p.job_pop p.job_num v.valid (omega arith) (omega (arith, v.valid.balance))
      ∙ ap (λ k. count_from (1000 + k) p.job_num) (sym len))
    ∙ count_from-append 1000 (length (ran r)) p.job_num
    ∙ ap (count_from 1000) total
