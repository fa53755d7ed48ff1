-- ===== src/Search.antt =====
-- The first and the last index of a range that passes a test, as the loops over an array find them.
use linux_c_study.Prelude.{
  ℕ, zero, suc, ◌+◌, ◌≤◌, ◌<◌, ◌≡◌, refl, ◌≢◌, inl, inr, Bool, true, false, Option, none, some,
  arith, ℕ_discrete, if◌then◌else◌, Bool-cases,
}

-- A loop over `n` indices from i on that breaks at the first that passes.
unfoldable pub first_from : (ℕ → Bool) → ℕ → ℕ → Option ℕ
first_from p zero i = none
first_from p (suc n) i = let rest = first_from p n (i + 1) in if p i then some i else rest

-- The same loop with no break: the last that passes is kept.
unfoldable pub last_from : (ℕ → Bool) → ℕ → ℕ → Option ℕ
last_from p zero i = none
last_from p (suc n) i = elim (last_from p n (i + 1)) [
  | some j ↦ some j
  | none ↦ if p i then some i else none
]

-- What is known of the first.
pub record First (p : ℕ → Bool) (i n j : ℕ) : Type 0 where
  pub passes : p j ≡ true
  pub from : i ≤ j
  pub below : j < i + n
  pub before : (k : ℕ) → i ≤ k → k < j → p k ≡ false

pub first_from-First : (p : ℕ → Bool) (n i : ℕ) {j : ℕ} → first_from p n i ≡ some j → First p i n j
unfolding first_from
first_from-First p zero i e = cc
first_from-First p (suc n) i {j} e = elim (Bool-cases (p i)) [
  | inl h ↦
      let same : i ≡ j = ground arith in
      record {
        passes = cc;
        from = omega arith;
        below = omega arith;
        before = λ k a b. absurd (omega arith);
      }
  | inr h ↦
      let r = first_from-First p n (i + 1) {j = j} (ground arith) in
      record {
        passes = r.passes;
        from = omega (arith, r.from);
        below = omega (arith, r.below);
        before = λ k a b. ground (arith, r.before k);
      }
]

pub first_from-eq :
    (p : ℕ → Bool) (n i j : ℕ)
    → p j ≡ true
    → i ≤ j
    → j < i + n
    → ((k : ℕ) → i ≤ k → k < j → p k ≡ false)
    → first_from p n i ≡ some j
unfolding first_from
first_from-eq p zero i j h a b before = absurd (omega arith)
first_from-eq p (suc n) i j h a b before = elim (ℕ_discrete i j) [
  | yes e ↦ ground arith
  | no ne ↦
      let ih =
        first_from-eq p n (i + 1) j h (omega arith) (omega arith)
          (λ k x y. before k (omega arith) y) in
      ground (arith, before i)
]

last_from-none :
    (p : ℕ → Bool) (n i : ℕ) → ((k : ℕ) → i ≤ k → k < i + n → p k ≡ false) → last_from p n i ≡ none
unfolding last_from
last_from-none p zero i others = refl
last_from-none p (suc n) i others =
    rw
      (
        last_from-none p n (i + 1) (λ k x y. others k (omega arith) (omega arith)),
        others i (omega arith) (omega arith),
      )
      refl

-- One index alone passes: it is the last.
pub last_from-eq :
    (p : ℕ → Bool) (n i j : ℕ)
    → p j ≡ true
    → i ≤ j
    → j < i + n
    → ((k : ℕ) → i ≤ k → k < i + n → k ≢ j → p k ≡ false)
    → last_from p n i ≡ some j
unfolding last_from
last_from-eq p zero i j h a b others = absurd (omega arith)
last_from-eq p (suc n) i j h a b others = elim (ℕ_discrete i j) [
  | yes e ↦
      let rest =
        last_from-none p n (i + 1) (λ k x y. others k (omega arith) (omega arith) (ground arith)) in
      rw rest (ground (arith, h))
  | no ne ↦
      let rest =
        last_from-eq p n (i + 1) j h (omega arith) (omega arith)
          (λ k x y. others k (omega arith) (omega arith)) in
      rw rest refl
]
