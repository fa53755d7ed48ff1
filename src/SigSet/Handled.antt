-- ===== src/SigSet/Handled.antt =====
-- The signals of sigset.c are handled.
use linux_c_study.Prelude.{
  ℕ, zero, suc, ◌+◌, ◌-◌, ◌%◌, ◌≤◌, ◌<◌, ◌≡◌, refl, ap, ◌∙◌, inl, inr, Bool, true, false, List, [],
  ◌∷◌, arith, ◌==◌, Bool-cases, length,
}
use linux_c_study.SigSet.{Signal, Process, arrive, arrive_all, sigprocmask, round, rounds}

module _ (s : Signal) where
  arrive-grows : (t : Signal) (p : Process) → p.handled s ≤ (arrive t p).handled s
  unfolding arrive
  arrive-grows t p = ground arith

  arrive_all-grows : (ss : List Signal) (p : Process) → p.handled s ≤ (arrive_all ss p).handled s
  unfolding arrive_all
  arrive_all-grows [] p = omega arith
  arrive_all-grows (t ∷ ss) p = omega (arith, arrive-grows t p, arrive_all-grows ss (arrive t p))

  arrive-pending : (t : Signal) (p : Process) → p.pending s ≡ true → (arrive t p).pending s ≡ true
  unfolding arrive
  arrive-pending t p h = ground arith

  arrive_all-pending :
      (ss : List Signal) (p : Process) → p.pending s ≡ true → (arrive_all ss p).pending s ≡ true
  unfolding arrive_all
  arrive_all-pending [] p h = h
  arrive_all-pending (t ∷ ss) p h = arrive_all-pending ss (arrive t p) (arrive-pending t p h)

  arrive_all-j : (ss : List Signal) (p : Process) → (arrive_all ss p).j ≡ p.j
  unfolding arrive_all arrive
  arrive_all-j [] p = refl
  arrive_all-j (t ∷ ss) p = arrive_all-j ss (arrive t p) ∙ ground arith

  round-grows : (old : Signal → Bool) (p : Process) → p.handled s ≤ (round old p).handled s
  unfolding round sigprocmask
  round-grows old p = ground arith

  -- Nine rounds of ten leave a signal that waits where it is.
  round-waits :
      (old : Signal → Bool) (p : Process)
      → (p.j % 10 == 0) ≡ false
      → p.pending s ≡ true
      → ((round old p).pending s ≡ true) × ((round old p).j ≡ p.j + 1)
  unfolding round sigprocmask
  round-waits old p z h = (rw (z, h) refl, rw z refl)

  -- The tenth one handles it.
  round-handles :
      (old : Signal → Bool) (p : Process)
      → old s ≡ false
      → (p.j % 10 == 0) ≡ true
      → p.pending s ≡ true
      → suc (p.handled s) ≤ (round old p).handled s
  unfolding round sigprocmask
  round-handles old p o z h = rw (z, o, h) (omega arith)

  rounds-grows :
      (old : Signal → Bool) (more : List (List Signal)) (p : Process)
      → p.handled s ≤ (rounds old more p).handled s
  unfolding rounds
  rounds-grows old [] p = omega arith
  rounds-grows old (arrivals ∷ more) p = omega (
    arith,
    round-grows old p,
    arrive_all-grows arrivals (round old p),
    rounds-grows old more (arrive_all arrivals (round old p)),
  )

  rounds-handles_in :
      (d : ℕ) (old : Signal → Bool) (more : List (List Signal)) (p : Process)
      → old s ≡ false
      → ((p.j + d) % 10 == 0) ≡ true
      → d < length more
      → p.pending s ≡ true
      → suc (p.handled s) ≤ (rounds old more p).handled s
  unfolding rounds
  rounds-handles_in d old [] p o e l h = absurd (omega arith)
  rounds-handles_in zero old (arrivals ∷ more) p o e l h =
      let z : (p.j % 10 == 0) ≡ true = ap (λ k. k % 10 == 0) (omega arith) ∙ e in
      omega (
        arith,
        round-handles old p o z h,
        arrive_all-grows arrivals (round old p),
        rounds-grows old more (arrive_all arrivals (round old p)),
      )
  rounds-handles_in (suc d) old (arrivals ∷ more) p o e l h = elim (Bool-cases (p.j % 10 == 0)) [
    | inl z ↦ omega (
      arith,
      round-handles old p o z h,
      arrive_all-grows arrivals (round old p),
      rounds-grows old more (arrive_all arrivals (round old p)),
    )
    | inr z ↦
        let (waits, moved) = round-waits old p z h in
        let q = arrive_all arrivals (round old p) in
        let later : q.j + d ≡ p.j + suc d =
          omega (arith, arrive_all-j arrivals (round old p), moved) in
        omega (
          arith,
          round-grows old p,
          arrive_all-grows arrivals (round old p),
          rounds-handles_in d old more q o (ap (λ k. k % 10 == 0) later ∙ e) (omega arith)
              (arrive_all-pending arrivals (round old p) waits),
        )
  ]

  -- sigset.c: a signal that waits, and that was not blocked when the program was started, is handled
  -- within ten rounds of the loop, whatever else arrives meanwhile.
  pub rounds-handles :
      (old : Signal → Bool) (more : List (List Signal)) (p : Process)
      → old s ≡ false
      → 10 ≤ length more
      → p.pending s ≡ true
      → suc (p.handled s) ≤ (rounds old more p).handled s
  rounds-handles old more p o l h =
      rounds-handles_in ((10 - p.j % 10) % 10) old more p o (ground arith) (omega arith) h
