-- ===== src/RwCounter.antt =====
-- linux08/thread_readLock.c: four writers and four readers of one number under a read-write lock.
pub mod Moves
pub mod Invariant
pub mod Safety
mod Tests
use linux_c_study.Prelude.{
  ℕ, ◌+◌, ◌-◌, Option, none, some, List, [], ◌∷◌, ℕ_discrete, ltb, ◌==◌, if◌then◌else◌,
}
use mathlib.Core.Logic.{ite}

-- Where a thread is in its loop: a writer before its lock, after it, with `number` read, with it
-- incremented, and with it stored; a reader before its lock, after it, with `number` read.
pub data Place : Type 0 where
  wants_write : Place
  write_locked : Place
  loaded : ℕ → Place
  counted : ℕ → Place
  stored : Place
  wants_read : Place
  read_locked : Place
  seen : ℕ → Place

-- The read-write lock: free, held by a writer, or by so many readers.
pub data RwLock : Type 0 where
  written_by : ℕ → RwLock
  read_by : ℕ → RwLock

-- The global `number`, the lock, the threads, and what the writers
-- and the readers have printed, the last first.
pub record Process : Type 0 where
  pub number : ℕ
  pub rwlock : RwLock
  pub threads : ℕ → Place
  pub printed : List ℕ
  pub shown : List ℕ

abbrev pub put : (ℕ → Place) → ℕ → Place → ℕ → Place
put f t p u = ite (ℕ_discrete t u) p (f u)

-- The next step of thread t; `none` where it waits for the lock.
unfoldable pub step_at : ℕ → Process → Place → Option Process
step_at t s wants_write = elim s.rwlock [
  | written_by u ↦ none
  | read_by n ↦
      if n == 0
      then some (record s { rwlock = written_by t; threads = put s.threads t write_locked })
      else none
]
step_at t s write_locked = some (record s { threads = put s.threads t (loaded s.number) })
step_at t s (loaded i) = some (record s { threads = put s.threads t (counted (i + 1)) })
step_at t s (counted i) =
    some (record s { number = i; threads = put s.threads t stored; printed = i ∷ s.printed })
step_at t s stored = some (record s { rwlock = read_by 0; threads = put s.threads t wants_write })
step_at t s wants_read = elim s.rwlock [
  | written_by u ↦ none
  | read_by n ↦ some (record s { rwlock = read_by (n + 1); threads = put s.threads t read_locked })
]
step_at t s read_locked =
    some (record s { threads = put s.threads t (seen s.number); shown = s.number ∷ s.shown })
step_at t s (seen i) = elim s.rwlock [
  | written_by u ↦ none
  | read_by n ↦ some (record s { rwlock = read_by (n - 1); threads = put s.threads t wants_read })
]

-- A step of thread t, one of eight.
unfoldable pub thread_step : ℕ → Process → Option Process
thread_step t s = let moved = step_at t s (s.threads t) in if ltb t 8 then moved else none

-- An interleaving of the threads: which of them makes each step.
unfoldable pub run : List ℕ → Process → Option Process
run [] s = some s
run (t ∷ ts) s = elim (thread_step t s) [ none ↦ none | some s' ↦ run ts s' ]

-- main: the first four threads write, the others read.
abbrev pub start : Process
start = record {
  number = 0;
  rwlock = read_by 0;
  threads = λ t. if ltb t 4 then wants_write else wants_read;
  printed = [];
  shown = [];
}
