-- ===== src/Http/Header/Decimal.antt =====
-- The digits that `%d` prints stand for the number.
use linux_c_study.Prelude.{
  ℕ, zero, suc, ◌+◌, ◌-◌, ◌*◌, ◌/◌, ◌%◌, ◌^◌, ◌≤◌, ◌<◌, ◌≡◌, refl, ap, ◌∙◌, inl, inr, List, [], ◌∷◌,
  ◌++◌, arith, ltb, Bool-cases, length, length-append,
}
use mathlib.Core.Path.{subst}
use native.Mathlib.Nat.{pow-suc}
use linux_c_study.Http.Header.{digits}

-- The number that a run of digits stands for, as a client reads it.
value_from : ℕ → List ℕ → ℕ
value_from acc [] = acc
value_from acc (d ∷ ds) = value_from (acc * 10 + (d - b'0')) ds

value_from-nil : value_from 0 [] ≡ 0
unfolding value_from
value_from-nil = refl

pub value : List ℕ → ℕ
value ds = value_from 0 ds

value_from-snoc :
    (acc d : ℕ) (ds : List ℕ)
    → value_from acc (ds ++ (d ∷ [])) ≡ value_from acc ds * 10 + (d - b'0')
unfolding value_from
value_from-snoc acc d [] = refl
value_from-snoc acc d (x ∷ ds) = value_from-snoc (acc * 10 + (x - b'0')) d ds

value_from-digits : (fuel n : ℕ) → n < 10 ^ fuel → value_from 0 (digits fuel n) ≡ n
unfolding digits
value_from-digits zero n h = subst (λ k. value_from 0 [] ≡ k) (omega arith) value_from-nil
value_from-digits (suc fuel) n h = elim (Bool-cases (ltb n 10)) [
  | inl s ↦ rw s (
      value_from-snoc 0 (b'0' + n) []
      ∙ ap (λ k. k * 10 + (b'0' + n - b'0')) value_from-nil
      ∙ omega arith)
  | inr s ↦ rw s (
      value_from-snoc 0 (b'0' + n % 10) (digits fuel (n / 10))
      ∙ ap (λ k. k * 10 + (b'0' + n % 10 - b'0'))
          (value_from-digits fuel (n / 10) (omega (arith, pow-suc 10 fuel)))
      ∙ omega arith)
]

-- The digits that `%d` prints for a number of at most `fuel` digits stand for the number.
pub value-digits : (fuel n : ℕ) → n < 10 ^ fuel → value (digits fuel n) ≡ n
unfolding value
value-digits fuel n h = value_from-digits fuel n h

pub length-digits : (fuel n : ℕ) → length (digits fuel n) ≤ fuel
unfolding digits
length-digits zero n = omega arith
length-digits (suc fuel) n = elim (Bool-cases (ltb n 10)) [
  | inl s ↦ rw s (omega arith)
  | inr s ↦ rw s (
      omega (
        arith,
        length-append (digits fuel (n / 10)) ((b'0' + n % 10) ∷ []),
        length-digits fuel (n / 10),
      ))
]
