-- ===== src/SigSet/Tests.antt =====
-- SIGINT arrives before the first round, and again in the second.
use linux_c_study.Prelude.{suc, ◌≤◌, ◌≡◌, refl, Bool, true, false, List, [], ◌∷◌, arith, replicate}
use linux_c_study.SigSet.{
  Signal, sigint, start, rounds, arrive, arrive_all, sigprocmask, round, bits,
}
use linux_c_study.SigSet.Handled.{rounds-handles}

abbrev free : Signal → Bool
free s = false

abbrev ten_rounds : List (List Signal)
ten_rounds = [] ∷ (sigint ∷ []) ∷ replicate 8 []

rounds-handles_example :
    suc ((start free (sigint ∷ [])).handled sigint)
    ≤ (rounds free ten_rounds (start free (sigint ∷ []))).handled sigint
unfolding start arrive_all arrive sigprocmask
rounds-handles_example =
    rounds-handles sigint free ten_rounds (start free (sigint ∷ [])) refl (omega arith) refl

-- Two arrivals while it is blocked are handled as one.
merged : (rounds free ten_rounds (start free (sigint ∷ []))).handled sigint ≡ 1
unfolding rounds round start arrive_all arrive sigprocmask
merged = refl

-- The line of the first round: the second of thirty bits is set.
first_line :
    (rounds free ([] ∷ []) (start free (sigint ∷ []))).lines
    ≡ (false ∷ true ∷ replicate 28 false) ∷ []
unfolding rounds round start arrive_all arrive sigprocmask bits
first_line = refl
