-- ===== src/SemList/Credits.antt =====
-- linux08/thread_sem.c: what the two semaphores count.
use linux_c_study.Prelude.{ℕ, ◌+◌, ◌≤◌, ◌<◌, ◌≡◌, refl, Option, some, arith}
use linux_c_study.SemList.{
  Producer, making, made, allowed, linked, posting, Consumer, waiting, admitted, shown, holding,
  returning, freeing, dead, Process, thread_produce, thread_customer, produces, consumes, Reach,
  here, next, start,
}

-- The producer is between its wait and its post.
abbrev pub producing : Producer → ℕ
producing (allowed p) = 1
producing (linked p) = 1
producing posting = 1
producing _ = 0

abbrev pub has_put : Producer → ℕ
has_put posting = 1
has_put _ = 0

-- The consumer is between its wait and its post.
abbrev pub consuming : Consumer → ℕ
consuming waiting = 0
consuming (freeing p) = 0
consuming _ = 1

abbrev pub has_got : Consumer → ℕ
has_got (returning p) = 1
has_got _ = 0

pub record Inv (s : Process) : Type 0 where
  pub credits : s.sem_produce + s.sem_consumer + producing s.producer + consuming s.consumer ≡ 5
  pub order :
      s.puts + has_got s.consumer
      ≡ s.gets + s.sem_consumer + has_put s.producer + consuming s.consumer

produce-Inv :
    (p d : ℕ) (old : Option ℕ) (s : Process) (a : Producer) {s' : Process}
    → s.producer ≡ a
    → Inv s
    → thread_produce p d old s ≡ some s'
    → Inv s'
unfolding thread_produce
produce-Inv p d old s making e v h = record {
  credits = ground (arith, v.credits);
  order = ground (arith, v.order);
}
produce-Inv p d old s (made q) e v h = record {
  credits = ground (arith, v.credits);
  order = ground (arith, v.order);
}
produce-Inv p d old s (allowed q) e v h = record {
  credits = ground (arith, v.credits);
  order = ground (arith, v.order);
}
produce-Inv p d old s (linked q) e v h = record {
  credits = ground (arith, v.credits);
  order = ground (arith, v.order);
}
produce-Inv p d old s posting e v h = record {
  credits = ground (arith, v.credits);
  order = ground (arith, v.order);
}

consume-Inv :
    (s : Process) (c : Consumer) {s' : Process}
    → s.consumer ≡ c
    → Inv s
    → thread_customer s ≡ some s'
    → Inv s'
unfolding thread_customer
consume-Inv s waiting e v h = record {
  credits = ground (arith, v.credits);
  order = ground (arith, v.order);
}
consume-Inv s admitted e v h = record {
  credits = ground (arith, v.credits);
  order = ground (arith, v.order);
}
consume-Inv s shown e v h = record {
  credits = ground (arith, v.credits);
  order = ground (arith, v.order);
}
consume-Inv s (holding p) e v h = record {
  credits = ground (arith, v.credits);
  order = ground (arith, v.order);
}
consume-Inv s (returning p) e v h = record {
  credits = ground (arith, v.credits);
  order = ground (arith, v.order);
}
consume-Inv s (freeing p) e v h = record {
  credits = ground (arith, v.credits);
  order = ground (arith, v.order);
}
consume-Inv s dead e v h = absurd (ground arith)

Reach-Inv : {s : Process} → Reach start s → Inv s
Reach-Inv here = record { credits = refl; order = refl }
Reach-Inv (next {t = t} r (produces p d old s' f h)) =
    produce-Inv p d old t t.producer {s' = s'} refl (Reach-Inv r) h
Reach-Inv (next {t = t} r (consumes s' h)) = consume-Inv t t.consumer {s' = s'} refl (Reach-Inv r) h

has_got-consuming : (c : Consumer) → has_got c ≤ consuming c
has_got-consuming waiting = omega arith
has_got-consuming admitted = omega arith
has_got-consuming shown = omega arith
has_got-consuming (holding p) = omega arith
has_got-consuming (returning p) = omega arith
has_got-consuming (freeing p) = omega arith
has_got-consuming dead = omega arith

has_put-producing : (p : Producer) → has_put p ≤ producing p
has_put-producing making = omega arith
has_put-producing (made p) = omega arith
has_put-producing (allowed p) = omega arith
has_put-producing (linked p) = omega arith
has_put-producing posting = omega arith

-- In every run, in whatever order the threads move: each of the five credits is in one of the
-- semaphores or with one of the threads; head has not been moved on more often than it has been set
-- to a new node, and at most five times less; and when the consumer is behind its wait, and has not
-- moved head on, it has been moved on less often.
pub Reach-bounded :
    {s : Process}
    → Reach start s
    → (s.sem_produce + s.sem_consumer + producing s.producer + consuming s.consumer ≡ 5)
      × (s.gets ≤ s.puts)
      × (s.puts ≤ s.gets + 5)
      × (consuming s.consumer ≡ 1 → has_got s.consumer ≡ 0 → s.gets < s.puts)
Reach-bounded {s} r =
    let v = Reach-Inv r in
    let g = has_got-consuming s.consumer in
    let q = has_put-producing s.producer in
    (
      v.credits,
      omega (arith, v.order, v.credits, g, q),
      omega (arith, v.order, v.credits, g, q),
      λ a b. omega (arith, v.order, a, b),
    )
