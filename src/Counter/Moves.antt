-- ===== src/Counter/Moves.antt =====
-- linux08/thread_lock.c: what one step of a thread does to i, to the mutex and to the thread.
use linux_c_study.Prelude.{
  ℕ, suc, ◌+◌, ◌-◌, ◌*◌, ◌<◌, ◌≡◌, refl, sym, ◌∙◌, Bool, true, false, not, some, arith,
}
use linux_c_study.Counter.{
  Place, locking, locked, loaded, counted, stored, ended, Thread, Process, put, test, step_at,
}
use mathlib.Core.Path.{subst}

-- The thread is between its lock and its unlock.
abbrev pub inside : Place → Bool
inside locking = false
inside ended = false
inside _ = true

-- What a thread has added to i.
abbrev pub added : ℕ → Place → ℕ
added k stored = k + 1
added k _ = k

abbrev pub is_ended : Place → Bool
is_ended ended = true
is_ended _ = false

-- The steps that a thread has still to make.
abbrev pub left : ℕ → ℕ → Place → ℕ
left rounds k locking = 5 * (rounds - k)
left rounds k locked = 5 * (rounds - k) - 1
left rounds k (loaded n) = 5 * (rounds - k) - 2
left rounds k (counted n) = 5 * (rounds - k) - 3
left rounds k stored = 5 * (rounds - k) - 4
left rounds k ended = 0

abbrev pub added_by : Process → Bool → ℕ
added_by s t = added (s.threads t).k (s.threads t).place

abbrev pub to_go : ℕ → Process → Bool → ℕ
to_go rounds s t = left rounds (s.threads t).k (s.threads t).place

pub record Inv (rounds : ℕ) (s : Process) : Type 0 where
  pub sum : added_by s false + added_by s true ≡ s.i
  pub owner : (t : Bool) → inside (s.threads t).place ≡ true → s.mutex ≡ some t
  pub held : (t : Bool) → s.mutex ≡ some t → inside (s.threads t).place ≡ true
  pub fresh : (t : Bool) (n : ℕ) → (s.threads t).place ≡ loaded n → n ≡ s.i
  pub next : (t : Bool) (n : ℕ) → (s.threads t).place ≡ counted n → n ≡ s.i + 1
  pub within : (t : Bool) → is_ended (s.threads t).place ≡ false → (s.threads t).k < rounds
  pub over : (t : Bool) → is_ended (s.threads t).place ≡ true → (s.threads t).k ≡ rounds

-- One thread's step, as a change of i, of the mutex and of the thread.
pub record Moved (rounds : ℕ) (t : Bool) (s s' : Process) : Type 0 where
  pub owner : inside (s'.threads t).place ≡ true → s'.mutex ≡ some t
  pub held : s'.mutex ≡ some t → inside (s'.threads t).place ≡ true
  pub fresh : (n : ℕ) → (s'.threads t).place ≡ loaded n → n ≡ s'.i
  pub next : (n : ℕ) → (s'.threads t).place ≡ counted n → n ≡ s'.i + 1
  pub within : is_ended (s'.threads t).place ≡ false → (s'.threads t).k < rounds
  pub over : is_ended (s'.threads t).place ≡ true → (s'.threads t).k ≡ rounds
  pub other : s'.threads (not t) ≡ s.threads (not t)
  pub apart : s.mutex ≡ some (not t) → (s'.i ≡ s.i) × (s'.mutex ≡ s.mutex)
  pub free : s'.mutex ≡ some (not t) → s.mutex ≡ some (not t)
  pub adds : added_by s' t + s.i ≡ added_by s t + s'.i
  pub goes : to_go rounds s t ≡ suc (to_go rounds s' t)

pub put-same : (f : Bool → Thread) (t : Bool) (a : Thread) → put f t a t ≡ a
put-same f true a = refl
put-same f false a = refl

pub put-other : (f : Bool → Thread) (t : Bool) (a : Thread) → put f t a (not t) ≡ f (not t)
put-other f true a = refl
put-other f false a = refl

pub apart_not : (t : Bool) → some t ≡ some (not t) → ⊥
apart_not true e = ground arith
apart_not false e = ground arith

pub ruleset moves = (arith, put-same, put-other, apart_not)

pub not-ended_of_inside : (p : Place) → inside p ≡ true → is_ended p ≡ false
not-ended_of_inside locking i = refl
not-ended_of_inside locked i = refl
not-ended_of_inside (loaded n) i = refl
not-ended_of_inside (counted n) i = refl
not-ended_of_inside stored i = refl
not-ended_of_inside ended i = ground arith

-- A step between the lock and the unlock.
module _ {rounds : ℕ} (t : Bool) {s : Process} (v : Inv rounds s) where
  inner :
      (i' : ℕ) (p' : Place)
      → inside (s.threads t).place ≡ true
      → inside p' ≡ true
      → ((n : ℕ) → p' ≡ loaded n → n ≡ i')
      → ((n : ℕ) → p' ≡ counted n → n ≡ i' + 1)
      → added (s.threads t).k p' + s.i ≡ added_by s t + i'
      → to_go rounds s t ≡ suc (left rounds (s.threads t).k p')
      → Moved rounds t s
          (record s { i = i'; threads = put s.threads t (record (s.threads t) { place = p' }) })
  inner i' p' was is fresh next adds goes =
      let h : Thread = record (s.threads t) { place = p' } in
      let same : put s.threads t h t ≡ h = put-same s.threads t h in
      let k = v.within t (not-ended_of_inside (s.threads t).place was) in
      let e = not-ended_of_inside p' is in
      record {
        owner = λ q. v.owner t was;
        held = λ q. rw same is;
        fresh = rw same fresh;
        next = rw same next;
        within = rw same (λ q. k);
        over = rw same (λ q. absurd (ground (arith, e, q)));
        other = put-other s.threads t h;
        apart = λ q. absurd (apart_not t (sym (v.owner t was) ∙ q));
        free = λ q. q;
        adds = rw same adds;
        goes = rw same goes;
      }

pub place_step :
    (rounds : ℕ) (t : Bool) (s s' : Process) (p : Place)
    → Inv rounds s
    → (s.threads t).place ≡ p
    → step_at rounds t s p ≡ some s'
    → Moved rounds t s s'
unfolding step_at test
place_step rounds t s s' locking v e r = record {
  owner = grind moves;
  held = grind moves;
  fresh = λ n q. grind moves;
  next = λ n q. grind moves;
  within = grind (moves, v.within t);
  over = grind moves;
  other = grind moves;
  apart = λ q. (grind moves, grind moves);
  free = grind moves;
  adds = grind moves;
  goes = grind (moves, v.within t);
}
place_step rounds t s s' locked v e r = subst (Moved rounds t s) (ground arith) (
    inner t v s.i (loaded s.i) (rw e refl) refl (λ n q. ground arith) (λ n q. ground arith)
      (ground arith) (ground (arith, v.within t)))
place_step rounds t s s' (loaded m) v e r = subst (Moved rounds t s) (ground arith) (
    inner t v s.i (counted (m + 1)) (rw e refl) refl (λ n q. ground arith)
      (λ n q. ground (arith, v.fresh t m e)) (ground arith) (ground (arith, v.within t)))
place_step rounds t s s' (counted m) v e r = subst (Moved rounds t s) (ground arith) (
    inner t v m stored (rw e refl) refl (λ n q. ground arith) (λ n q. ground arith)
      (ground (arith, v.next t m e)) (ground (arith, v.within t)))
place_step rounds t s s' stored v e r = record {
  owner = grind (moves, v.owner t);
  held = grind (moves, v.owner t);
  fresh = λ n q. grind moves;
  next = λ n q. grind moves;
  within = grind (moves, v.within t);
  over = grind (moves, v.within t);
  other = grind moves;
  apart = λ q. (grind moves, grind (moves, v.owner t));
  free = grind (moves, v.owner t);
  adds = grind moves;
  goes = grind (moves, v.within t);
}
place_step rounds t s s' ended v e r = absurd (ground arith)
