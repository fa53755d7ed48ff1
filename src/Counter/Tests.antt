-- ===== src/Counter/Tests.antt =====
-- linux08/thread_lock.c: interleavings of the two threads.
use linux_c_study.Prelude.{
  ◌*◌, ◌≡◌, refl, inr, Bool, true, false, not, none, some, List, [], ◌∷◌, ◌++◌, map, arith,
}
use linux_c_study.Counter.{
  Process, locked, loaded, test, put, step_at, thread_handler, run, start, main,
}
use linux_c_study.Counter.Runs.{run-steps, main-ends}

-- Five steps of thread1.
abbrev turn : List Bool
turn = false ∷ false ∷ false ∷ false ∷ false ∷ []

-- thread1 ends its round between the first and the second of thread2.
abbrev in_turns : List Bool
in_turns = map not turn ++ turn ++ map not turn ++ turn

in_turns-main : main 2 true true in_turns ≡ some (inr 4)
unfolding main run thread_handler step_at test
in_turns-main = refl

-- thread1 has the mutex, and has read i.
abbrev halfway : Process
halfway = record {
  i = 0;
  mutex = some false;
  threads =
      put (put (start 2).threads false (record { k = 0; place = locked })) false
        (record { k = 0; place = loaded 0 });
}

halfway-run : run 2 (false ∷ false ∷ []) (start 2) ≡ some halfway
unfolding run thread_handler step_at test
halfway-run = refl

run-steps_example : (t : Bool) × (s' : Process) × (thread_handler 2 t halfway ≡ some s')
run-steps_example = run-steps 2 (false ∷ false ∷ []) halfway-run (omega arith)

abbrev final : Process
unfolding run thread_handler step_at test
final = elim (run 2 in_turns (start 2)) [ none ↦ start 2 | some s ↦ s ]

final-run : run 2 in_turns (start 2) ≡ some final
unfolding run thread_handler step_at test
final-run = refl

main-ends_example : main 2 true true in_turns ≡ some (inr (2 * 2))
main-ends_example = main-ends 2 in_turns final-run refl
