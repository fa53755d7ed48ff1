-- ===== src/Sum/Bounds.antt =====
-- What sum.c adds up, and up to where an int holds it.
use linux_c_study.Prelude.{
  ℕ, zero, suc, ◌+◌, ◌*◌, ◌≤◌, ◌<◌, ◌≡◌, refl, ◌⊎◌, inl, inr, none, some, arith, dec_lt, dec_le,
}
use linux_c_study.Prelude.Int.{pos}
use linux_c_study.Sum.{add_int, sum_loop, sum}
use mathlib.Core.Path.{subst}

square_mono : (a b : ℕ) → a ≤ b → a * a ≤ b * b
square_mono a b h = grind arith

add_int-some : (s i : ℕ) → s + i < 2147483648 → add_int s i ≡ some (s + i)
unfolding add_int
add_int-some s i h = ground arith

add_int-none : (s i : ℕ) → 2147483648 ≤ s + i → add_int s i ≡ none
unfolding add_int
add_int-none s i h = ground arith

step_square : (s i : ℕ) → 2 * s + i ≡ i * i → 2 * (s + i) + (i + 1) ≡ (i + 1) * (i + 1)
step_square s i h = grind arith

same_square : (i s : ℕ) → 2 * s + i ≡ i * i → 2 * s + (i + 0) ≡ (i + 0) * (i + 0)
same_square i s e = grind arith

zero_plus : (k : ℕ) → 0 + k ≡ k
zero_plus k = omega arith

-- The numbers below i have the sum s; those below i + left are added up.
sum_loop-some :
    (left i s : ℕ)
    → i + left ≤ 65536
    → 2 * s + i ≡ i * i
    → (r : ℕ) × (sum_loop left i s ≡ some r) × (2 * r + (i + left) ≡ (i + left) * (i + left))
unfolding sum_loop
sum_loop-some zero i s h e = (s, refl, same_square i s e)
sum_loop-some (suc left) i s h e =
    let small : i * i ≤ 65535 * 65535 = square_mono i 65535 (omega arith) in
    let below : s + i < 2147483648 = omega (arith, small, e) in
    let (r, found, total) = sum_loop-some left (i + 1) (s + i) (omega arith) (step_square s i e) in
    let shift : (i + 1) + left ≡ i + suc left = omega arith in
    (r, rw (add_int-some s i below, sum_loop) found, subst (λ k. 2 * r + k ≡ k * k) shift total)

sum_loop-none :
    (left i s : ℕ) → 65536 < i + left → i ≤ 65536 → 2 * s + i ≡ i * i → sum_loop left i s ≡ none
unfolding sum_loop
sum_loop-none zero i s h lo e = absurd (omega arith)
sum_loop-none (suc left) i s h lo e = elim (dec_lt i 65536) [
  | yes below ↦
      let small : i * i ≤ 65535 * 65535 = square_mono i 65535 (omega arith) in
      let fits : s + i < 2147483648 = omega (arith, small, e) in
      rw (add_int-some s i fits, sum_loop)
        (sum_loop-none left (i + 1) (s + i) (omega arith) (omega arith) (step_square s i e))
  | no above ↦
      let big : 65536 * 65536 ≤ i * i = square_mono 65536 i (omega arith) in
      let over : 2147483648 ≤ s + i = omega (arith, big, e) in
      rw (add_int-none s i over, sum_loop) refl
]

-- sum.c: for a `len` of up to 65536 the loop gives len * (len - 1) / 2, and no addition on the way
-- leaves the range of an int; for a larger one, one does.
pub sum_lem :
    (len : ℕ)
    → ((len ≤ 65536) × (r : ℕ) × (sum (pos len) ≡ some r) × (2 * r + len ≡ len * len))
      ⊎ ((65536 < len) × (sum (pos len) ≡ none))
unfolding sum
sum_lem len = elim (dec_le len 65536) [
  | yes le ↦
      let (r, found, total) = sum_loop-some len 0 0 (omega arith) (omega arith) in
      inl (le, r, found, subst (λ k. 2 * r + k ≡ k * k) (zero_plus len) total)
  | no above ↦ inr (omega arith, sum_loop-none len 0 0 (omega arith) (omega arith) (omega arith))
]
