-- ===== src/Counter/Exclusion.antt =====
-- linux08/thread_lock.c: the mutex keeps the threads apart in every step.
use linux_c_study.Prelude.{ℕ, suc, ◌+◌, ◌<◌, ◌≡◌, refl, Bool, true, false, not, some, arith}
use linux_c_study.Counter.{loaded, counted, Process, thread_handler}
use linux_c_study.Counter.Moves.{inside, is_ended, added_by, to_go, Inv, Moved, place_step, moves}

-- What holds of both threads, from what holds of one and of the other.
both : (P : Bool → Type 0) (t : Bool) → P t → P (not t) → (u : Bool) → P u
both P true p q true = p
both P true p q false = q
both P false p q true = q
both P false p q false = p

sum_of :
    (t : Bool) (s : Process)
    → added_by s t + added_by s (not t) ≡ added_by s false + added_by s true
sum_of true s = omega arith
sum_of false s = refl

module _ {rounds : ℕ} (t : Bool) {s s' : Process} (v : Inv rounds s) (m : Moved rounds t s s') where
  Moved-Inv : Inv rounds s'
  Moved-Inv = record {
    sum = ground (arith, m.adds, m.other, v.sum, sum_of t s, sum_of t s');
    owner =
        both (λ u. inside (s'.threads u).place ≡ true → s'.mutex ≡ some u) t m.owner
          (grind (moves, m.other, m.apart, v.owner (not t)));
    held =
        both (λ u. s'.mutex ≡ some u → inside (s'.threads u).place ≡ true) t m.held
          (grind (moves, m.other, m.free, v.held (not t)));
    fresh =
        both (λ u. (n : ℕ) → (s'.threads u).place ≡ loaded n → n ≡ s'.i) t m.fresh
          (λ n q.
            let e : (s.threads (not t)).place ≡ loaded n = ground (arith, m.other) in
            ground (arith, m.apart (v.owner (not t) (rw e refl)), v.fresh (not t) n e));
    next =
        both (λ u. (n : ℕ) → (s'.threads u).place ≡ counted n → n ≡ s'.i + 1) t m.next
          (λ n q.
            let e : (s.threads (not t)).place ≡ counted n = ground (arith, m.other) in
            ground (arith, m.apart (v.owner (not t) (rw e refl)), v.next (not t) n e));
    within =
        both (λ u. is_ended (s'.threads u).place ≡ false → (s'.threads u).k < rounds) t m.within
          (rw m.other (v.within (not t)));
    over =
        both (λ u. is_ended (s'.threads u).place ≡ true → (s'.threads u).k ≡ rounds) t m.over
          (rw m.other (v.over (not t)));
  }

pub handler-Inv :
    (rounds : ℕ) (t : Bool) (s : Process) {s' : Process}
    → Inv rounds s
    → thread_handler rounds t s ≡ some s'
    → Inv rounds s'
unfolding thread_handler
handler-Inv rounds t s {s'} v e =
    Moved-Inv t v (place_step rounds t s s' (s.threads t).place v refl e)

-- The steps that the threads have still to make.
abbrev pub remaining : ℕ → Process → ℕ
remaining rounds s = to_go rounds s false + to_go rounds s true

pub handler-remaining :
    (rounds : ℕ) (t : Bool) (s : Process) {s' : Process}
    → Inv rounds s
    → thread_handler rounds t s ≡ some s'
    → remaining rounds s ≡ suc (remaining rounds s')
unfolding thread_handler
handler-remaining rounds true s {s'} v e =
    let m = place_step rounds true s s' (s.threads true).place v refl e in
    ground (arith, m.goes, m.other)
handler-remaining rounds false s {s'} v e =
    let m = place_step rounds false s s' (s.threads false).place v refl e in
    ground (arith, m.goes, m.other)
