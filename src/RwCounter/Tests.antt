-- ===== src/RwCounter/Tests.antt =====
-- linux08/thread_readLock.c: interleavings of writers and readers.
use linux_c_study.Prelude.{ℕ, ◌≡◌, refl, true, none, some, List, [], ◌∷◌, ℕ_discrete}
use linux_c_study.RwCounter.{Process, step_at, thread_step, run, start}
use linux_c_study.RwCounter.Moves.{countdown, writes}
use linux_c_study.RwCounter.Safety.{run-countdown}

-- Readers 4 and 5 together, a round of writer 2, a reader again, and writer 0 up to its store.
abbrev mixed : List ℕ
mixed = 4 ∷ 5 ∷ 4 ∷ 5 ∷ 5 ∷ 4 ∷ 2 ∷ 2 ∷ 2 ∷ 2 ∷ 2 ∷ 7 ∷ 7 ∷ 7 ∷ 0 ∷ 0 ∷ 0 ∷ 0 ∷ []

abbrev after : Process
unfolding run thread_step step_at ℕ_discrete
after = elim (run mixed start) [ none ↦ start | some s ↦ s ]

mixed-run : run mixed start ≡ some after
unfolding run thread_step step_at ℕ_discrete
mixed-run = refl

-- What was printed: 2 and 1 by the writers, 1, 0 and 0 by the readers.
mixed-printed : (after.printed ≡ 2 ∷ 1 ∷ []) × (after.shown ≡ 1 ∷ 0 ∷ 0 ∷ [])
unfolding run thread_step step_at ℕ_discrete
mixed-printed = (refl, refl)

run-countdown_example : after.printed ≡ countdown after.number
run-countdown_example = run-countdown mixed mixed-run

after-writes : writes (after.threads 0) ≡ true
unfolding run thread_step step_at ℕ_discrete
after-writes = refl
