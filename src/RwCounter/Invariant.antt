-- ===== src/RwCounter/Invariant.antt =====
-- linux08/thread_readLock.c: what the lock and the number are, against where the threads are.
use linux_c_study.Prelude.{
  ℕ, zero, suc, ◌+◌, ◌-◌, ◌<◌, ◌≡◌, refl, sym, ◌∙◌, inl, inr, none, some, List, ◌∷◌, arith,
  suc-==-zero,
}
use linux_c_study.RwCounter.{
  Place, wants_write, write_locked, loaded, counted, stored, wants_read, read_locked, seen,
  written_by, read_by, Process, put, step_at,
}
use mathlib.Core.Path.{subst}
use linux_c_study.RwCounter.Moves.{
  writes, reads, Inv, Moved-Inv, lock-cases, some-not-none, reads-readers,
}

-- A step that leaves the lock and the number as they are.
module _ (t : ℕ) (s : Process) (l : t < 8) (v : Inv s) where
  stays :
      (p : Place) (shown : List ℕ)
      → writes p ≡ writes (s.threads t)
      → reads p ≡ reads (s.threads t)
      → ((i : ℕ) → p ≡ loaded i → i ≡ s.number)
      → ((i : ℕ) → p ≡ counted i → i ≡ suc s.number)
      → Inv (record s { threads = put s.threads t p; shown = shown })
  stays p shown w r fresh up = Moved-Inv t s s.number s.rwlock p s.printed shown l v (record {
    writer = λ q. v.writer t (sym w ∙ q);
    written = λ q. w ∙ v.written t q;
    apart = λ u ne q. (q, refl);
    back = λ u ne q. q;
    count = omega (arith, r);
    fresh = fresh;
    up = up;
    all = v.all;
  })

pub step_at-Inv :
    (t : ℕ) (s s' : Process) (p : Place)
    → t < 8
    → Inv s
    → s.threads t ≡ p
    → step_at t s p ≡ some s'
    → Inv s'
unfolding step_at
step_at-Inv t s s' write_locked l v e h = subst Inv (ground arith) (
    stays t s l v (loaded s.number) s.shown (rw e refl) (rw e refl) (λ i q. ground arith)
      (λ i q. ground arith))
step_at-Inv t s s' (loaded i) l v e h = subst Inv (ground arith) (
    stays t s l v (counted (i + 1)) s.shown (rw e refl) (rw e refl) (λ j q. ground arith)
      (λ j q. ground (arith, v.fresh t i e)))
step_at-Inv t s s' (counted i) l v e h = subst Inv (ground arith) (
    Moved-Inv t s i s.rwlock stored (i ∷ s.printed) s.shown l v (record {
      writer = λ w. ground (arith, e, v.writer t);
      written = λ q. ground (arith, e, v.written t);
      apart = λ u ne q.
          (ground (arith, e, v.writer t, v.written t), ground (arith, e, v.writer t, v.written t));
      back = λ u ne q. ground (arith, e);
      count = ground (arith, e, v.writer t, v.count, reads-readers s.threads t 8 l);
      fresh = λ j q. ground arith;
      up = λ j q. ground (arith, e, v.fresh t);
      all = ground (arith, v.up t i e, v.all);
    }))
step_at-Inv t s s' stored l v e h = subst Inv (ground arith) (
    Moved-Inv t s s.number (read_by 0) wants_write s.printed s.shown l v (record {
      writer = λ w. ground (arith, e, v.writer t);
      written = λ q. ground (arith, e, v.written t);
      apart = λ u ne q.
          (ground (arith, e, v.writer t, v.written t), ground (arith, e, v.writer t, v.written t));
      back = λ u ne q. ground (arith, e);
      count = ground (arith, e, v.writer t, v.count, reads-readers s.threads t 8 l);
      fresh = λ i q. ground arith;
      up = λ i q. ground (arith, e, v.fresh t);
      all = ground (arith, e, v.up t, v.all);
    }))
step_at-Inv t s s' read_locked l v e h = subst Inv (ground arith) (
    stays t s l v (seen s.number) (s.number ∷ s.shown) (rw e refl) (rw e refl) (λ i q. ground arith)
      (λ i q. ground arith))
step_at-Inv t s s' wants_write l v e h = elim (lock-cases s.rwlock) [
  | inl (u, k) ↦ absurd (ground arith)
  | inr (zero, k) ↦ subst Inv (ground arith) (
      Moved-Inv t s s.number (written_by t) write_locked s.printed s.shown l v (record {
        writer = λ w. ground (arith, e, v.writer t, k);
        written = λ q. ground (arith, e, v.written t, k);
        apart = λ u ne q. (
          ground (arith, e, v.writer t, v.written t, k),
          ground (arith, e, v.writer t, v.written t, k),
        );
        back = λ u ne q. ground (arith, e, k);
        count = ground (arith, e, v.writer t, v.count, reads-readers s.threads t 8 l, k);
        fresh = λ i q. ground (arith, k);
        up = λ i q. ground (arith, e, v.fresh t, k);
        all = ground (arith, e, v.up t, v.all, k);
      }))
  | inr (suc n, k) ↦
      let z : step_at t s wants_write ≡ none = rw (k, suc-==-zero n, step_at) refl in
      absurd (some-not-none (sym h ∙ z))
]
step_at-Inv t s s' wants_read l v e h = elim (lock-cases s.rwlock) [
  | inl (u, k) ↦ absurd (ground arith)
  | inr (n, k) ↦ subst Inv (ground arith) (
      Moved-Inv t s s.number (read_by (n + 1)) read_locked s.printed s.shown l v (record {
        writer = λ w. ground (arith, e, v.writer t, k);
        written = λ q. ground (arith, e, v.written t, k);
        apart = λ u ne q. (
          ground (arith, e, v.writer t, v.written t, k),
          ground (arith, e, v.writer t, v.written t, k),
        );
        back = λ u ne q. ground (arith, e, k);
        count = ground (arith, e, v.writer t, v.count, reads-readers s.threads t 8 l, k);
        fresh = λ i q. ground (arith, k);
        up = λ i q. ground (arith, e, v.fresh t, k);
        all = ground (arith, e, v.up t, v.all, k);
      }))
]
step_at-Inv t s s' (seen i) l v e h = elim (lock-cases s.rwlock) [
  | inl (u, k) ↦ absurd (ground arith)
  | inr (n, k) ↦ subst Inv (ground arith) (
      Moved-Inv t s s.number (read_by (n - 1)) wants_read s.printed s.shown l v (record {
        writer = λ w. ground (arith, e, v.writer t, k);
        written = λ q. ground (arith, e, v.written t, k);
        apart = λ u ne q. (
          ground (arith, e, v.writer t, v.written t, k),
          ground (arith, e, v.writer t, v.written t, k),
        );
        back = λ u ne q. ground (arith, e, k);
        count = ground (arith, e, v.writer t, v.count, reads-readers s.threads t 8 l, k);
        fresh = λ i q. ground (arith, k);
        up = λ i q. ground (arith, e, v.fresh t, k);
        all = ground (arith, e, v.up t, v.all, k);
      }))
]
