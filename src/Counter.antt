-- ===== src/Counter.antt =====
-- linux08/thread_lock.c: two threads that count in one variable, each round under the mutex.
pub mod Moves
pub mod Exclusion
pub mod Runs
mod Tests
use linux_c_study.Prelude.{
  ℕ, ◌+◌, ◌⊎◌, inl, inr, Bool, true, false, Option, none, some, List, [], ◌∷◌, ltb, if◌then◌else◌,
}
use linux_c_study.Prelude.Int.{ℤ, negsuc}

-- Where a thread of threadHandler is: before its lock; after it, with `n` not yet read; with i read
-- into n; with n incremented; with n stored, before its unlock; returned.
pub data Place : Type 0 where
  locking : Place
  locked : Place
  loaded : ℕ → Place
  counted : ℕ → Place
  stored : Place
  ended : Place

-- The loop's variable, and the place in its body.
pub record Thread : Type 0 where
  pub k : ℕ
  pub place : Place

-- The global `i`, the thread that holds the mutex, and the threads: thread1 is `false`, thread2 is
-- `true`.
pub record Process : Type 0 where
  pub i : ℕ
  pub mutex : Option Bool
  pub threads : Bool → Thread

abbrev pub put : (Bool → Thread) → Bool → Thread → Bool → Thread
put f true a true = a
put f true a false = f false
put f false a true = f true
put f false a false = a

-- The loop's test, with rounds to go in `rounds`.
unfoldable pub test : ℕ → ℕ → Thread
test rounds k =
    if ltb k rounds then record { k = k; place = locking } else record { k = k; place = ended }

-- The next step of thread t, with `rounds` for the global `size`, which is 2000 in the source; `none` where it cannot move: it waits
-- for the mutex, or has returned.
unfoldable pub step_at : ℕ → Bool → Process → Place → Option Process
step_at rounds t s locking = elim s.mutex [
  | some u ↦ none
  | none ↦ some (record s {
    mutex = some t;
    threads = put s.threads t (record (s.threads t) { place = locked });
  })
]
step_at rounds t s locked =
    some (record s { threads = put s.threads t (record (s.threads t) { place = loaded s.i }) })
step_at rounds t s (loaded n) =
    some (record s { threads = put s.threads t (record (s.threads t) { place = counted (n + 1) }) })
step_at rounds t s (counted n) =
    some (record s { i = n; threads = put s.threads t (record (s.threads t) { place = stored }) })
step_at rounds t s stored =
    some (record s { mutex = none; threads = put s.threads t (test rounds ((s.threads t).k + 1)) })
step_at rounds t s ended = none

unfoldable pub thread_handler : ℕ → Bool → Process → Option Process
thread_handler rounds t s = step_at rounds t s (s.threads t).place

-- An interleaving of the threads: which of them makes each step. A thread that cannot move is not
-- chosen.
unfoldable pub run : ℕ → List Bool → Process → Option Process
run rounds [] s = some s
run rounds (b ∷ bs) s = elim (thread_handler rounds b s) [
  | none ↦ none
  | some s' ↦ run rounds bs s'
]

-- Both threads at the start of their loops.
abbrev pub start : ℕ → Process
start rounds = record { i = 0; mutex = none; threads = λ t. test rounds 0 }

-- The two joins, and what is printed after them.
abbrev pub joined : Place → Place → ℕ → Option (ℤ ⊎ ℕ)
joined ended ended i = some (inr i)
joined _ _ i = none

-- main, with `rounds` for `size`: the answers of the two calls of pthread_create, true for 0, and the interleaving of the
-- threads up to the joins; what it prints, or its return value. `none`: a join has not returned.
unfoldable pub main : ℕ → Bool → Bool → List Bool → Option (ℤ ⊎ ℕ)
main rounds false second schedule = some (inl (negsuc 0))
main rounds true false schedule = some (inl (negsuc 0))
main rounds true true schedule = elim (run rounds schedule (start rounds)) [
  | none ↦ none
  | some s ↦ joined (s.threads false).place (s.threads true).place s.i
]
