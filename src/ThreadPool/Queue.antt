-- ===== src/ThreadPool/Queue.antt =====
-- The ring of tasks is a queue: tasks come out in the order of their numbers, each once.
use linux_c_study.Prelude.{
  ℕ, ◌+◌, ◌-◌, ◌*◌, ◌/◌, ◌%◌, ◌≤◌, ◌<◌, ◌≡◌, ap, ◌∙◌, ◌≢◌, inl, inr, Bool, true, false, not, ◌&&◌,
  none, some, arith, dec_lt, leb, ◌==◌, Bool-cases, positive, length, length-set, get_or,
  length-replicate, get_or-set_self, get_or-set_ne,
}
use mathlib.Core.Path.{subst}
use native.Mathlib.Nat.{mod-lt, div-add-mod}
use linux_c_study.ThreadPool.{
  PoolTask, Pool, no_task, create_threadpool, take_task, thr_run, put_task, addtask,
}

-- The slot of the task with the number 1000 + k, for the tasks put in and not yet taken.
abbrev Holds : Pool → ℕ → Type 0
Holds p k = (get_or p.task (k % p.max_job_num) no_task).tasknum ≡ 1000 + k

pub record IsValid (p : Pool) : Type 0 where
  pub room : 1 ≤ p.max_job_num
  pub slots : length p.task ≡ p.max_job_num
  pub balance : p.job_pop + p.job_num ≡ p.job_push
  pub bounded : p.job_num ≤ p.max_job_num
  pub numbered : p.beginnum ≡ 1000 + p.job_push
  pub held : (k : ℕ) → p.job_pop ≤ k → k < p.job_push → Holds p k

pub create_threadpool-IsValid : (n : ℕ) → 1 ≤ n → IsValid (create_threadpool n)
unfolding create_threadpool
create_threadpool-IsValid n h = record {
  room = h;
  slots = length-replicate n no_task;
  balance = omega arith;
  bounded = omega arith;
  numbered = omega arith;
  held = λ k a b. absurd (omega arith);
}

-- Fewer than `m` steps from j the ring does not come back to j's slot.
mod-ne : (m j k : ℕ) → 1 ≤ m → k < j → j < k + m → j % m ≢ k % m
mod-ne m j k pos lt near e = elim (dec_lt (k / m) (j / m)) [
  | yes p ↦
      let up : m * (k / m + 1) ≤ m * (j / m) = grind arith in
      omega (arith, up, div-add-mod j m, div-add-mod k m)
  | no p ↦
      let down : m * (j / m) ≤ m * (k / m) = grind arith in
      omega (arith, down, div-add-mod j m, div-add-mod k m)
]

-- A task taken, whether the pool is shutting down or not.
pub take_task-IsValid :
    (p : Pool) (b : Bool)
    → IsValid p
    → 1 ≤ p.job_num
    → IsValid (record p { job_pop = p.job_pop + 1; job_num = p.job_num - 1; shutdown = b })
take_task-IsValid p b v h = record {
  room = v.room;
  slots = v.slots;
  balance = omega arith;
  bounded = omega arith;
  numbered = v.numbered;
  held = λ k lo hi. v.held k (omega arith) hi;
}

-- From a valid pool, the pass of a worker leaves a valid one, whether it waits, runs a task or
-- ends.
pub thr_run-IsValid : (p : Pool) → IsValid p → IsValid (thr_run p).1
unfolding thr_run take_task
thr_run-IsValid p v = elim (Bool-cases ((p.job_num == 0) && not p.shutdown)) [
  | inl s ↦ rw s v
  | inr s ↦ elim (Bool-cases (p.job_num == 0)) [
    | inl z ↦ rw (s, z) v
    | inr z ↦ elim (Bool-cases p.shutdown) [
      | inl d ↦ rw (s, z, d) (take_task-IsValid p true v (positive p.job_num z))
      | inr d ↦ rw (s, z, d) (take_task-IsValid p false v (positive p.job_num z))
    ]
  ]
]

-- The new task is where `held` looks for it, and the write leaves the slots of the others alone.
put_task-Holds :
    (p : Pool)
    → IsValid p
    → p.job_num < p.max_job_num
    → (k : ℕ) → p.job_pop ≤ k
    → k < p.job_push + 1
    → Holds (put_task p) k
unfolding put_task
put_task-Holds p v room k lo hi = elim (dec_lt k p.job_push) [
  | yes old ↦
      let other : p.job_push % p.max_job_num ≢ k % p.max_job_num =
        mod-ne p.max_job_num p.job_push k v.room old (omega (arith, v.balance)) in
      ap (λ (t : PoolTask). t.tasknum) (get_or-set_ne p.task _ no_task other) ∙ v.held k lo old
  | no new ↦
      let same : k ≡ p.job_push = omega arith in
      rw same (
        ap (λ (t : PoolTask). t.tasknum)
          (get_or-set_self p.task (p.job_push % p.max_job_num) _ no_task
            (omega (arith, mod-lt p.job_push v.room, v.slots)))
        ∙ v.numbered)
]

pub put_task-IsValid : (p : Pool) → IsValid p → p.job_num < p.max_job_num → IsValid (put_task p)
unfolding put_task
put_task-IsValid p v room = record {
  room = v.room;
  slots = length-set p.task _ _ ∙ v.slots;
  balance = omega (arith, v.balance);
  bounded = omega arith;
  numbered = omega (arith, v.numbered);
  held = put_task-Holds p v room;
}

pub addtask-full : (p : Pool) → leb p.max_job_num p.job_num ≡ true → addtask p ≡ none
unfolding addtask
addtask-full p h = rw h

pub addtask-free : (p : Pool) → leb p.max_job_num p.job_num ≡ false → addtask p ≡ some (put_task p)
unfolding addtask
addtask-free p h = rw h

-- From a valid pool, addtask leaves a valid one when it has stored its task: it never writes a
-- slot whose task has not been taken.
pub addtask-IsValid : (p : Pool) {p' : Pool} → IsValid p → addtask p ≡ some p' → IsValid p'
addtask-IsValid p {p'} v e = elim (Bool-cases (leb p.max_job_num p.job_num)) [
  | inl full ↦ cc (addtask-full p full)
  | inr free ↦
      let s : put_task p ≡ p' = cc (addtask-free p free) in
      subst IsValid s (put_task-IsValid p v (ground arith))
]
