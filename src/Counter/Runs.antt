-- ===== src/Counter/Runs.antt =====
-- linux08/thread_lock.c: the runs of the two threads, what main prints and when they end.
use linux_c_study.Prelude.{
  ℕ, ◌+◌, ◌*◌, ◌<◌, ◌≡◌, refl, ◌⊎◌, inl, inr, Bool, true, false, none, some, List, [], ◌∷◌, arith,
  ltb, ltb→lt, Bool-cases, Option-cases, length,
}
use mathlib.Core.Path.{subst}
use linux_c_study.Counter.{
  Place, locking, locked, loaded, counted, stored, ended, Process, test, step_at, thread_handler,
  put, run, start, joined, main,
}
use linux_c_study.Counter.Exclusion.{remaining, handler-Inv, handler-remaining}
use linux_c_study.Counter.Moves.{inside, left, to_go, Inv, is_ended, not-ended_of_inside}

start-Inv : (rounds : ℕ) → Inv rounds (start rounds)
unfolding test
start-Inv rounds = elim (Bool-cases (ltb 0 rounds)) [
  | inl h ↦ record {
    sum = rw h refl;
    owner = λ t. rw h (λ q. absurd (ground arith));
    held = λ t q. ground arith;
    fresh = λ t n. rw h (λ q. absurd (ground arith));
    next = λ t n. rw h (λ q. absurd (ground arith));
    within = λ t. rw h (λ q. ltb→lt 0 rounds h);
    over = λ t. rw h (λ q. absurd (ground arith));
  }
  | inr h ↦ record {
    sum = rw h refl;
    owner = λ t. rw h (λ q. absurd (ground arith));
    held = λ t q. ground arith;
    fresh = λ t n. rw h (λ q. absurd (ground arith));
    next = λ t n. rw h (λ q. absurd (ground arith));
    within = λ t. rw h (λ q. absurd (ground arith));
    over = λ t q. ground arith;
  }
]

pub run-Inv :
    (rounds : ℕ) (bs : List Bool) (s : Process) {s' : Process}
    → Inv rounds s
    → run rounds bs s ≡ some s'
    → Inv rounds s' × (remaining rounds s ≡ length bs + remaining rounds s')
unfolding run
run-Inv rounds [] s {s'} v e =
    let same : s ≡ s' = ground arith in
    subst (λ u. Inv rounds u × (remaining rounds s ≡ 0 + remaining rounds u)) same (v, omega arith)
run-Inv rounds (b ∷ bs) s {s'} v e = elim (Option-cases (thread_handler rounds b s)) [
  | inl h ↦ absurd (ground arith)
  | inr (t, h) ↦
      let rest : run rounds bs t ≡ some s' = ground arith in
      let after = run-Inv rounds bs t (handler-Inv rounds b s v h) rest in
      (after.0, ground (arith, handler-remaining rounds b s v h, after.1))
]

start-remaining : (rounds : ℕ) → remaining rounds (start rounds) ≡ 10 * rounds
unfolding test
start-remaining rounds = elim (Bool-cases (ltb 0 rounds)) [
  | inl h ↦ rw h (omega arith)
  | inr h ↦ rw h (ground arith)
]

-- In a run of any number of rounds, the two threads are never both between lock and unlock.
pub run_excludes :
    (rounds : ℕ) (bs : List Bool) {s : Process}
    → run rounds bs (start rounds) ≡ some s
    → inside (s.threads false).place ≡ true
    → inside (s.threads true).place ≡ false
run_excludes rounds bs {s} e h =
    let v = (run-Inv rounds bs (start rounds) (start-Inv rounds) e).0 in
    elim (Bool-cases (inside (s.threads true).place)) [
      | inl k ↦ absurd (ground (arith, v.owner false h, v.owner true k))
      | inr k ↦ k
    ]

ended_of_none_left :
    (rounds : ℕ) (s : Process) (t : Bool)
    → Inv rounds s
    → to_go rounds s t ≡ 0
    → (s.threads t).place ≡ ended
ended_of_none_left rounds s t v e = go (s.threads t).place refl (v.within t) e
  where
    go :
        (p : Place)
        → (s.threads t).place ≡ p
        → (is_ended p ≡ false → (s.threads t).k < rounds)
        → left rounds (s.threads t).k p ≡ 0
        → (s.threads t).place ≡ ended
    go locking q w z = absurd (omega (arith, w refl))
    go locked q w z = absurd (omega (arith, w refl))
    go (loaded n) q w z = absurd (omega (arith, w refl))
    go (counted n) q w z = absurd (omega (arith, w refl))
    go stored q w z = absurd (omega (arith, w refl))
    go ended q w z = q

joined_lem :
    (p q : Place) (i : ℕ) {n : ℕ}
    → joined p q i ≡ some (inr n)
    → (p ≡ ended) × (q ≡ ended) × (i ≡ n)
joined_lem ended ended i e = (refl, refl, ground arith)
joined_lem ended locking i e = absurd (ground arith)
joined_lem ended locked i e = absurd (ground arith)
joined_lem ended (loaded n) i e = absurd (ground arith)
joined_lem ended (counted n) i e = absurd (ground arith)
joined_lem ended stored i e = absurd (ground arith)
joined_lem locking q i e = absurd (ground arith)
joined_lem locked q i e = absurd (ground arith)
joined_lem (loaded n) q i e = absurd (ground arith)
joined_lem (counted n) q i e = absurd (ground arith)
joined_lem stored q i e = absurd (ground arith)

-- Whatever main prints, in whatever order the threads ran, is twice the number of rounds.
pub main-counts :
    (rounds : ℕ) (created1 created2 : Bool) (schedule : List Bool) {n : ℕ}
    → main rounds created1 created2 schedule ≡ some (inr n)
    → n ≡ 2 * rounds
unfolding main
main-counts rounds false c schedule e = absurd (ground arith)
main-counts rounds true false schedule e = absurd (ground arith)
main-counts rounds true true schedule {n} e =
    elim (Option-cases (run rounds schedule (start rounds))) [
      | inl h ↦ absurd (ground arith)
      | inr (s, h) ↦
          let v = (run-Inv rounds schedule (start rounds) (start-Inv rounds) h).0 in
          let j =
            joined_lem (s.threads false).place (s.threads true).place s.i {n = n} (ground arith) in
          ground (arith, v.sum, v.over false, v.over true, j)
    ]

-- When the threads have made ten steps for each of the rounds, whichever moved when, main prints
-- twice the number of rounds.
pub main-ends :
    (rounds : ℕ) (schedule : List Bool) {s : Process}
    → run rounds schedule (start rounds) ≡ some s
    → length schedule ≡ 10 * rounds
    → main rounds true true schedule ≡ some (inr (2 * rounds))
unfolding main
main-ends rounds schedule {s} e l =
    let r = run-Inv rounds schedule (start rounds) (start-Inv rounds) e in
    let z : remaining rounds s ≡ 0 = ground (arith, r.1, start-remaining rounds) in
    let p = ended_of_none_left rounds s false r.0 (omega (arith, z)) in
    let q = ended_of_none_left rounds s true r.0 (omega (arith, z)) in
    rw (e, p, q, main) (ground (arith, r.0.sum, r.0.over false, r.0.over true, p, q))

-- A thread that holds the mutex can step, and so can one in its loop when the mutex is free.
place_steps :
    (rounds : ℕ) (t : Bool) (s : Process) (p : Place)
    → (s.mutex ≡ none) ⊎ (inside p ≡ true)
    → is_ended p ≡ false
    → (s' : Process) × (step_at rounds t s p ≡ some s')
unfolding step_at
place_steps rounds t s locking (inl free) e = (
  record s { mutex = some t; threads = put s.threads t (record (s.threads t) { place = locked }) },
  rw free refl,
)
place_steps rounds t s locking (inr i) e = absurd (ground arith)
place_steps rounds t s locked h e = (_, refl)
place_steps rounds t s (loaded n) h e = (_, refl)
place_steps rounds t s (counted n) h e = (_, refl)
place_steps rounds t s stored h e = (_, refl)
place_steps rounds t s ended h e = absurd (ground arith)

none_left_of_ended : (rounds k : ℕ) (p : Place) → is_ended p ≡ true → left rounds k p ≡ 0
none_left_of_ended rounds k ended e = refl
none_left_of_ended rounds k locking e = absurd (ground arith)
none_left_of_ended rounds k locked e = absurd (ground arith)
none_left_of_ended rounds k (loaded n) e = absurd (ground arith)
none_left_of_ended rounds k (counted n) e = absurd (ground arith)
none_left_of_ended rounds k stored e = absurd (ground arith)

can_step :
    (rounds : ℕ) (s : Process)
    → Inv rounds s
    → 0 < remaining rounds s
    → (t : Bool) × (s' : Process) × (thread_handler rounds t s ≡ some s')
unfolding thread_handler
can_step rounds s v more = elim (Option-cases s.mutex) [
  | inr (t, m) ↦
      let i = v.held t m in
      let r = place_steps rounds t s (s.threads t).place (inr i) (not-ended_of_inside _ i) in
      (t, r.0, r.1)
  | inl free ↦ elim (Bool-cases (is_ended (s.threads false).place)) [
    | inr e ↦
        let r = place_steps rounds false s (s.threads false).place (inl free) e in (false, r.0, r.1)
    | inl e ↦ elim (Bool-cases (is_ended (s.threads true).place)) [
      | inr e' ↦
          let r = place_steps rounds true s (s.threads true).place (inl free) e' in (true, r.0, r.1)
      | inl e' ↦ absurd (
          omega (
            arith,
            none_left_of_ended rounds (s.threads false).k _ e,
            none_left_of_ended rounds (s.threads true).k _ e',
          ))
    ]
  ]
]

-- The threads never stop one another: in a run that has not made all its steps, ten for each round,
-- one of them can make a step.
pub run-steps :
    (rounds : ℕ) (bs : List Bool) {s : Process}
    → run rounds bs (start rounds) ≡ some s
    → length bs < 10 * rounds
    → (t : Bool) × (s' : Process) × (thread_handler rounds t s ≡ some s')
run-steps rounds bs {s} e l =
    let r = run-Inv rounds bs (start rounds) (start-Inv rounds) e in
    can_step rounds s r.0 (omega (arith, r.1, start-remaining rounds))
