-- ===== src/ThreadPool/Order.antt =====
-- The order in which the tasks run, over any order of the passes.
use linux_c_study.Prelude.{
  ℕ, zero, suc, ◌+◌, ◌-◌, ◌≤◌, ◌≡◌, refl, ap, ap₂, ◌∙◌, inl, inr, Bool, true, false, none, some,
  List, [], ◌∷◌, ◌++◌, arith, leb, ◌==◌, Bool-cases, positive, length,
}
use mathlib.Core.Path.{subst}
use linux_c_study.ThreadPool.{
  Pool, Pass, sleeps, runs, exits, take_task, thr_run, put_task, addtask,
}
use linux_c_study.ThreadPool.Queue.{
  IsValid, take_task-IsValid, put_task-IsValid, addtask-full, addtask-free,
}

-- A pass of some worker, or of some call of addtask.
pub data Op : Type 0 where
  work add : Op

-- The numbers of the tasks that are run, when the passes come in this order. A call of addtask that
-- waits has no effect, and makes another pass later.
unfoldable pub tasks_run : List Op → Pool → List ℕ
tasks_run [] p = []
tasks_run (add ∷ ops) p = elim (addtask p) [ none ↦ tasks_run ops p | some p' ↦ tasks_run ops p' ]
tasks_run (work ∷ ops) p =
    let (pass, p', signals) = thr_run p in
    elim pass [
      | runs t ↦ t.tasknum ∷ tasks_run ops p'
      | sleeps ↦ tasks_run ops p'
      | exits ↦ tasks_run ops p'
    ]

-- n, n + 1, …: `k` numbers.
abbrev pub count_from : ℕ → ℕ → List ℕ
count_from n zero = []
count_from n (suc k) = n ∷ count_from (n + 1) k

pub count_from-append : (n j k : ℕ) → count_from n j ++ count_from (n + j) k ≡ count_from n (j + k)
count_from-append n zero k =
    let e : n + 0 ≡ n = omega arith in let z : 0 + k ≡ k = omega arith in rw (e, z) refl
count_from-append n (suc j) k =
    let e : n + suc j ≡ (n + 1) + j = omega arith in
    let z : suc j + k ≡ suc (j + k) = omega arith in rw (e, z, count_from-append (n + 1) j k) refl

abbrev pub taken : Pool → Pool
taken p = record p { job_pop = p.job_pop + 1; job_num = p.job_num - 1; shutdown = false }

pub thr_run-idle :
    (p : Pool) → p.shutdown ≡ false → (p.job_num == 0) ≡ true → thr_run p ≡ (sleeps, p, false)
unfolding thr_run
thr_run-idle p d z = rw (z, d)

pub thr_run-busy :
    (p : Pool)
    → p.shutdown ≡ false
    → (p.job_num == 0) ≡ false
    → thr_run p ≡ (runs (take_task p).0, taken p, true)
unfolding thr_run take_task
thr_run-busy p d z = rw (z, d)

pub take_task-tasknum :
    (p : Pool) → IsValid p → 1 ≤ p.job_num → (take_task p).0.tasknum ≡ 1000 + p.job_pop
unfolding take_task
take_task-tasknum p v h = v.held p.job_pop (omega arith) (omega (arith, v.balance))

module _ (ops : List Op) (p : Pool) where
  tasks_run-add_full :
      leb p.max_job_num p.job_num ≡ true → tasks_run (add ∷ ops) p ≡ tasks_run ops p
  unfolding tasks_run
  tasks_run-add_full h = rw (addtask-full p h, tasks_run)

  tasks_run-add_free :
      leb p.max_job_num p.job_num ≡ false → tasks_run (add ∷ ops) p ≡ tasks_run ops (put_task p)
  unfolding tasks_run
  tasks_run-add_free h = rw (addtask-free p h, tasks_run)

  tasks_run-idle :
      p.shutdown ≡ false → (p.job_num == 0) ≡ true → tasks_run (work ∷ ops) p ≡ tasks_run ops p
  unfolding tasks_run
  tasks_run-idle d z =
      rw (thr_run-idle p d z, tasks_run)
        (ap (λ (x : Pass × Pool × Bool). tasks_run ops x.1) (thr_run-idle p d z))

  tasks_run-busy :
      p.shutdown ≡ false
      → (p.job_num == 0) ≡ false
      → tasks_run (work ∷ ops) p ≡ (take_task p).0.tasknum ∷ tasks_run ops (taken p)
  unfolding tasks_run
  tasks_run-busy d z =
      rw (thr_run-busy p d z, tasks_run)
        (ap (λ (x : Pass × Pool × Bool). (take_task p).0.tasknum ∷ tasks_run ops x.1)
          (thr_run-busy p d z))

put_task-keeps :
    (p : Pool) → ((put_task p).shutdown ≡ p.shutdown) × ((put_task p).job_pop ≡ p.job_pop)
unfolding put_task
put_task-keeps p = (refl, refl)

tasks_run-nil :
    (p : Pool) → tasks_run [] p ≡ count_from (1000 + p.job_pop) (length (tasks_run [] p))
unfolding tasks_run
tasks_run-nil p = refl

-- From a valid pool that is not shut down, the tasks run in the order of their numbers, each once
-- and none left out: whatever the order in which workers and addtask get the lock, the numbers of
-- those that run are 1000 + job_pop, 1000 + job_pop + 1 and so on.
pub tasks_run-count_from :
    (ops : List Op) (p : Pool)
    → IsValid p
    → p.shutdown ≡ false
    → tasks_run ops p ≡ count_from (1000 + p.job_pop) (length (tasks_run ops p))
tasks_run-count_from [] p v d = tasks_run-nil p
tasks_run-count_from (add ∷ ops) p v d = elim (Bool-cases (leb p.max_job_num p.job_num)) [
  | inl full ↦ rw (tasks_run-add_full ops p full) (tasks_run-count_from ops p v d)
  | inr free ↦ rw (tasks_run-add_free ops p free) (
      subst
        (λ k.
          tasks_run ops (put_task p) ≡ count_from (1000 + k) (length (tasks_run ops (put_task p))))
        (put_task-keeps p).1
        (tasks_run-count_from ops (put_task p) (put_task-IsValid p v (ground arith))
          ((put_task-keeps p).0 ∙ d)))
]
tasks_run-count_from (work ∷ ops) p v d = elim (Bool-cases (p.job_num == 0)) [
  | inl z ↦ rw (tasks_run-idle ops p d z) (tasks_run-count_from ops p v d)
  | inr z ↦ rw (tasks_run-busy ops p d z) (
      ap₂ ◌∷◌ (take_task-tasknum p v (positive p.job_num z)) (
        tasks_run-count_from ops (taken p) (take_task-IsValid p false v (positive p.job_num z)) refl
        ∙ ap (λ k. count_from k (length (tasks_run ops (taken p)))) (omega arith)))
]
