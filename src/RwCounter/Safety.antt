-- ===== src/RwCounter/Safety.antt =====
-- linux08/thread_readLock.c: writers exclude one another and the readers, so no update is lost.
use linux_c_study.Prelude.{
  ℕ, ◌<◌, ◌≡◌, refl, inl, inr, true, some, List, [], ◌∷◌, arith, ltb, ltb→lt, Bool-cases,
  Option-cases,
}
use linux_c_study.RwCounter.{Process, thread_step, run, start}
use mathlib.Core.Path.{subst}
use linux_c_study.RwCounter.Invariant.{step_at-Inv}
use linux_c_study.RwCounter.Moves.{writes, reads, countdown, Inv, reads-readers}

thread_step-Inv : (t : ℕ) (s : Process) {s' : Process} → Inv s → thread_step t s ≡ some s' → Inv s'
unfolding thread_step
thread_step-Inv t s {s'} v h = elim (Bool-cases (ltb t 8)) [
  | inl k ↦ step_at-Inv t s s' (s.threads t) (ltb→lt t 8 k) v refl (ground arith)
  | inr k ↦ absurd (ground arith)
]

run-Inv : (ts : List ℕ) (s : Process) {s' : Process} → Inv s → run ts s ≡ some s' → Inv s'
unfolding run
run-Inv [] s v h = subst Inv (ground arith) v
run-Inv (t ∷ ts) s {s'} v h = elim (Option-cases (thread_step t s)) [
  | inl k ↦ absurd (ground arith)
  | inr (u, k) ↦ run-Inv ts u {s' = s'} (thread_step-Inv t s v k) (ground arith)
]

start-Inv : Inv start
start-Inv = record {
  writer = λ t w. ground arith;
  written = λ t e. ground arith;
  count = refl;
  fresh = λ t i e. ground arith;
  up = λ t i e. ground arith;
  all = refl;
}

-- In every interleaving of the four writers and the four readers, the writers print 1, 2, 3 and so
-- on, each once, up to the value of number: no update is lost.
pub run-countdown :
    (ts : List ℕ) {s : Process} → run ts start ≡ some s → s.printed ≡ countdown s.number
run-countdown ts h = (run-Inv ts start start-Inv h).all

-- While a thread is between its lock and its unlock to write, no other writes, and none reads.
pub run-alone :
    (ts : List ℕ) (t : ℕ) {s : Process}
    → run ts start ≡ some s
    → writes (s.threads t) ≡ true
    → ((u : ℕ) → writes (s.threads u) ≡ true → u ≡ t) × ((u : ℕ) → u < 8 → reads (s.threads u) ≡ 0)
run-alone ts t {s} h w =
    let v = run-Inv ts start start-Inv h in
    (
      λ u q. ground (arith, v.writer t w, v.writer u q),
      λ u l. ground (arith, v.writer t w, v.count, reads-readers s.threads u 8 l),
    )
