-- ===== src/RwCounter/Moves.antt =====
-- linux08/thread_readLock.c: the invariant of the lock and the number, and what a step has to give for it.
use linux_c_study.Prelude.{
  ℕ, zero, suc, ◌+◌, ◌≤◌, ◌<◌, ◌≡◌, refl, ap, ◌≢◌, ◌⊎◌, inl, inr, Bool, true, false, none, some,
  List, [], ◌∷◌, arith, ℕ_discrete,
}
use linux_c_study.RwCounter.{
  Place, write_locked, loaded, counted, stored, read_locked, seen, RwLock, written_by, read_by,
  Process, put,
}

abbrev pub writes : Place → Bool
writes write_locked = true
writes (loaded i) = true
writes (counted i) = true
writes stored = true
writes _ = false

abbrev pub reads : Place → ℕ
reads read_locked = 1
reads (seen i) = 1
reads _ = 0

-- How many of the first n threads hold the lock to read.
abbrev pub readers : (ℕ → Place) → ℕ → ℕ
readers f zero = 0
readers f (suc n) = reads (f n) + readers f n

abbrev pub holders : RwLock → ℕ
holders (written_by u) = 0
holders (read_by n) = n

-- n, ..., 2, 1
abbrev pub countdown : ℕ → List ℕ
countdown zero = []
countdown (suc n) = suc n ∷ countdown n

pub readers-put :
    (f : ℕ → Place) (t : ℕ) (p : Place) (n : ℕ)
    → (t < n → readers (put f t p) n + reads (f t) ≡ readers f n + reads p)
      × (n ≤ t → readers (put f t p) n ≡ readers f n)
unfolding ℕ_discrete
readers-put f t p zero = (λ l. absurd (omega arith), λ l. refl)
readers-put f t p (suc n) = elim (ℕ_discrete t n) [
  | yes e ↦ (
    λ l.
        let x : put f t p n ≡ p = ground arith in
        ground (arith, x, ap f e, (readers-put f t p n).1 (omega arith)),
    λ l. absurd (omega arith),
  )
  | no ne ↦ (
    λ l. ground (arith, (readers-put f t p n).0 (omega arith)),
    λ l. ground (arith, (readers-put f t p n).1 (omega arith)),
  )
]

pub record Inv (s : Process) : Type 0 where
  pub writer : (t : ℕ) → writes (s.threads t) ≡ true → s.rwlock ≡ written_by t
  pub written : (t : ℕ) → s.rwlock ≡ written_by t → writes (s.threads t) ≡ true
  pub count : readers s.threads 8 ≡ holders s.rwlock
  pub fresh : (t i : ℕ) → s.threads t ≡ loaded i → i ≡ s.number
  pub up : (t i : ℕ) → s.threads t ≡ counted i → i ≡ suc s.number
  pub all : s.printed ≡ countdown s.number

-- One thread's step: what becomes of the number, the lock, what the writers print and its place.
pub record Moved (t : ℕ) (s : Process) (number : ℕ) (lock : RwLock) (p : Place) (printed : List ℕ)
    : Type 0 where
  pub writer : writes p ≡ true → lock ≡ written_by t
  pub written : lock ≡ written_by t → writes p ≡ true
  pub apart :
      (u : ℕ) → t ≢ u → s.rwlock ≡ written_by u → (lock ≡ written_by u) × (number ≡ s.number)
  pub back : (u : ℕ) → t ≢ u → lock ≡ written_by u → s.rwlock ≡ written_by u
  pub count : holders lock + reads (s.threads t) ≡ holders s.rwlock + reads p
  pub fresh : (i : ℕ) → p ≡ loaded i → i ≡ number
  pub up : (i : ℕ) → p ≡ counted i → i ≡ suc number
  pub all : printed ≡ countdown number

pub Moved-Inv :
    (t : ℕ) (s : Process) (number : ℕ) (lock : RwLock) (p : Place) (printed shown : List ℕ)
    → t < 8
    → Inv s
    → Moved t s number lock p printed
    → Inv (record {
      number = number;
      rwlock = lock;
      threads = put s.threads t p;
      printed = printed;
      shown = shown;
    })
unfolding ℕ_discrete
Moved-Inv t s number lock p printed shown l v m = record {
  writer = λ u w. elim (ℕ_discrete t u) [
    | yes e ↦ ground (arith, m.writer)
    | no ne ↦ ground (arith, m.apart u, v.writer u)
  ];
  written = λ u e. elim (ℕ_discrete t u) [
    | yes q ↦ ground (arith, m.written)
    | no ne ↦ ground (arith, m.back u, v.written u)
  ];
  count = ground (arith, (readers-put s.threads t p 8).0 l, m.count, v.count);
  fresh = λ u i e. elim (ℕ_discrete t u) [
    | yes q ↦ ground (arith, m.fresh i)
    | no ne ↦
        let h : s.threads u ≡ loaded i = ground arith in
        ground (arith, m.apart u ne (v.writer u (rw h refl)), v.fresh u i h)
  ];
  up = λ u i e. elim (ℕ_discrete t u) [
    | yes q ↦ ground (arith, m.up i)
    | no ne ↦
        let h : s.threads u ≡ counted i = ground arith in
        ground (arith, m.apart u ne (v.writer u (rw h refl)), v.up u i h)
  ];
  all = m.all;
}

pub lock-cases : (r : RwLock) → ((u : ℕ) × (r ≡ written_by u)) ⊎ ((n : ℕ) × (r ≡ read_by n))
lock-cases (written_by u) = inl (u, refl)
lock-cases (read_by n) = inr (n, refl)

pub some-not-none : {s : Process} → some s ≡ none → ⊥
some-not-none e = ground arith

pub reads-readers : (f : ℕ → Place) (t n : ℕ) → t < n → reads (f t) ≤ readers f n
reads-readers f t zero l = absurd (omega arith)
reads-readers f t (suc n) l = elim (ℕ_discrete t n) [
  | yes e ↦ ground (arith, ap f e)
  | no ne ↦ omega (arith, reads-readers f t n (omega arith))
]
