-- ===== src/SigChild/Reaped.antt =====
-- linux07/sigchild.c and linux07/sigchildReally.c: which children are reaped, and the loop over fork.
use linux_c_study.Prelude.{
  ℕ, zero, suc, ◌+◌, ◌-◌, ◌≤◌, ◌<◌, ◌≡◌, refl, sym, ap, inl, inr, Bool, true, false, ◌||◌, some,
  List, ◌∷◌, ◌++◌, arith, ℕ_discrete, ltb, lt→ltb, Bool-cases, replicate,
}
use linux_c_study.SigChild.{
  parent, child, error, goes_on, returns, fork_loop, Parent, waitpid, reaped, sighandler_once,
  sighandler, reap_all, Step, ends, delivers, handles, unblocks, Reach, here, next, start, Fork,
  negsuc,
}
use mathlib.Core.Path.{subst}

pub record Inv (n : ℕ) (p : Parent) : Type 0 where
  pub all : p.alive + p.zombies + p.quit ≡ n
  pub noticed : 1 ≤ p.zombies → (p.pending || p.handling) ≡ true

abbrev reap_one : Parent → Parent
reap_one p = record p { zombies = p.zombies - 1; quit = p.quit + 1 }

waitpid-reaps : (p : Parent) → 1 ≤ p.zombies → waitpid p ≡ (reaped, reap_one p)
unfolding waitpid
waitpid-reaps p z = rw (lt→ltb 0 p.zombies (omega arith), waitpid) refl

sighandler-reaps : (p : Parent) → 1 ≤ p.zombies → sighandler p ≡ reap_one p
unfolding sighandler
sighandler-reaps p z = rw (waitpid-reaps p z, sighandler) (ap (λ w. w.1) (waitpid-reaps p z))

sighandler-stops : (p : Parent) → p.zombies ≡ 0 → sighandler p ≡ record p { handling = false }
unfolding sighandler waitpid
sighandler-stops p z = elim (Bool-cases (ltb 0 p.alive)) [
  | inl h ↦ let e : ltb 0 p.zombies ≡ false = ground arith in rw (e, h, sighandler, waitpid) refl
  | inr h ↦ let e : ltb 0 p.zombies ≡ false = ground arith in rw (e, h, sighandler, waitpid) refl
]

sighandler-Inv : (n : ℕ) (p : Parent) → p.handling ≡ true → Inv n p → Inv n (sighandler p)
sighandler-Inv n p h v = elim (ℕ_discrete p.zombies 0) [
  | yes z ↦
      subst (Inv n) (sym (sighandler-stops p z))
        (record { all = v.all; noticed = λ q. absurd (omega arith) })
  | no z ↦
      subst (Inv n) (sym (sighandler-reaps p (omega arith)))
        (record { all = omega (arith, v.all); noticed = λ q. ground arith })
]

Step-Inv : (n : ℕ) {p q : Parent} → Inv n p → Step sighandler p q → Inv n q
Step-Inv n v (ends a) = record { all = omega (arith, v.all); noticed = λ z. refl }
Step-Inv n v (delivers a b c) = record { all = v.all; noticed = λ z. ground arith }
Step-Inv n {p = p} v (handles h) = sighandler-Inv n p h v
Step-Inv n v unblocks = record { all = v.all; noticed = v.noticed }

Reach-Inv : (n : ℕ) {p q : Parent} → Inv n p → Reach sighandler p q → Inv n q
Reach-Inv n v here = v
Reach-Inv n v (next r s) = Step-Inv n (Reach-Inv n v r) s

-- sigchildReally.c: in every run, whether the signal was blocked during the forks or not, when no
-- signal is pending and the handler does not run, no child that has ended is left unreaped: those
-- that live and those that have been reaped are all of them.
pub Reach-none_left :
    (blocked : Bool) (n : ℕ) {p : Parent}
    → Reach sighandler (start blocked n) p
    → p.pending ≡ false
    → p.handling ≡ false
    → (p.zombies ≡ 0) × (p.alive + p.quit ≡ n)
Reach-none_left blocked n {p} r idle out =
    let v = Reach-Inv n (record { all = omega arith; noticed = λ z. absurd (omega arith) }) r in
    let z : p.zombies ≡ 0 = elim (ℕ_discrete p.zombies 0) [
      | yes e ↦ e
      | no e ↦ absurd (ground (arith, v.noticed (omega arith)))
    ] in
    (z, omega (arith, v.all))

reap_all-some :
    (fuel : ℕ) (p : Parent)
    → p.handling ≡ true
    → p.zombies < fuel
    → reap_all fuel p ≡ some (record p { zombies = 0; quit = p.quit + p.zombies; handling = false })
unfolding reap_all
reap_all-some zero p h f = absurd (omega arith)
reap_all-some (suc fuel) p h f = elim (ℕ_discrete p.zombies 0) [
  | yes z ↦ rw (sighandler-stops p z) (ground arith)
  | no z ↦
      rw (sighandler-reaps p (omega arith), reap_all-some fuel (reap_one p) h (omega arith), h)
        (ground arith)
]

-- sigchildReally.c: the handler's loop ends, in one round more than there are children that have
-- ended, and reaps them all.
pub reap_all_lem :
    (p : Parent)
    → p.handling ≡ true
    → reap_all (p.zombies + 1) p
      ≡ some (record p { zombies = 0; quit = p.quit + p.zombies; handling = false })
reap_all_lem p h = reap_all-some (p.zombies + 1) p h (omega arith)

Reach-trans :
    {handler : Parent → Parent} {p q r : Parent}
    → Reach handler p q
    → Reach handler q r
    → Reach handler p r
Reach-trans a here = a
Reach-trans a (next b s) = next (Reach-trans a b) s

-- All the children of sigchild.c have ended, and their signals have been one.
abbrev ended : ℕ → ℕ → Parent
ended a z = record {
  alive = a;
  zombies = z;
  quit = 0;
  pending = true;
  blocked = false;
  handling = false;
}

all_end : (a z : ℕ) → Reach sighandler_once (ended a z) (ended 0 (z + a))
all_end zero z = subst (λ k. Reach sighandler_once (ended 0 z) (ended 0 k)) (omega arith) here
all_end (suc a) z =
    let first : Reach sighandler_once (ended (suc a) z) (ended a (z + 1)) =
      subst (λ k. Reach sighandler_once (ended (suc a) z) (ended k (z + 1))) (omega arith)
        (next here (ends (omega arith))) in
    subst (λ k. Reach sighandler_once (ended (suc a) z) (ended 0 k)) (omega arith)
      (Reach-trans first (all_end a (z + 1)))

once_lem :
    (n : ℕ)
    → sighandler_once (record (ended 0 (1 + n)) { pending = false; handling = true }) ≡ record {
      alive = 0;
      zombies = n;
      quit = 1;
      pending = false;
      blocked = false;
      handling = false;
    }
unfolding sighandler_once
once_lem n =
    rw
      (
        waitpid-reaps (record (ended 0 (1 + n)) { pending = false; handling = true }) (omega arith),
        sighandler_once,
      )
      (ground arith)

-- sigchild.c, with any number of children: it can come to pass that all of them have ended, one has
-- been reaped, and the others stay zombies with no signal to come.
pub zombies_stay :
    (n : ℕ)
    → Reach sighandler_once (start false (suc n)) (record {
      alive = 0;
      zombies = n;
      quit = 1;
      pending = false;
      blocked = false;
      handling = false;
    })
zombies_stay n =
    let first : Reach sighandler_once (start false (suc n)) (ended n 1) =
      subst (λ k. Reach sighandler_once (start false (suc n)) (ended k 1)) (omega arith)
        (next here (ends (omega arith))) in
    let called = next (Reach-trans first (all_end n 1)) (delivers refl refl refl) in
    subst (λ q. Reach sighandler_once (start false (suc n)) q) (once_lem n)
      (next called (handles refl))

-- The loop over fork leaves its k-th child, counted from 0, with i ≡ k and the parent with i ≡ n, as
-- long as no call before has failed; a child forks no more, and after the first failure there is no
-- further call.
pub fork_loop_lem :
    (n i k : ℕ) (fs : List Fork)
    → k < n
    → (fork_loop n i (replicate k parent ++ child ∷ fs) ≡ some (goes_on (i + k)))
      × (fork_loop n i (replicate k parent ++ error ∷ fs) ≡ some (returns (negsuc 0)))
      × (fork_loop n i (replicate n parent) ≡ some (goes_on (i + n)))
unfolding fork_loop
fork_loop_lem n i k fs h = (first n i k h, second n i k h, third n i)
  where
    first :
        (n i k : ℕ)
        → k < n
        → fork_loop n i (replicate k parent ++ child ∷ fs) ≡ some (goes_on (i + k))
    first zero i k h = absurd (omega arith)
    first (suc n) i zero h = ground arith
    first (suc n) i (suc k) h = rw (first n (i + 1) k (omega arith)) (ground arith)

    second :
        (n i k : ℕ)
        → k < n
        → fork_loop n i (replicate k parent ++ error ∷ fs) ≡ some (returns (negsuc 0))
    second zero i k h = absurd (omega arith)
    second (suc n) i zero h = refl
    second (suc n) i (suc k) h = second n (i + 1) k (omega arith)

    third : (n i : ℕ) → fork_loop n i (replicate n parent) ≡ some (goes_on (i + n))
    third zero i = ground arith
    third (suc n) i = rw (third n (i + 1)) (ground arith)
