-- ===== src/Sum.antt =====
-- linux03/sum.c, of which gdbDemo and test01 to test04 have copies.
pub mod Bounds
mod Tests
use linux_c_study.Prelude.{ℕ, zero, suc, ◌+◌, ◌^◌, Option, none, some, ltb, if◌then◌else◌}
use linux_c_study.Prelude.Int.{ℤ, pos, negsuc}

-- sum += i, for numbers that are not negative: `none` when the result is not an int.
unfoldable pub add_int : ℕ → ℕ → Option ℕ
add_int sum i = if ltb (sum + i) (2 ^ 31) then some (sum + i) else none

-- The loop, with `left` for len - i.
unfoldable pub sum_loop : ℕ → ℕ → ℕ → Option ℕ
sum_loop zero i sum = some sum
sum_loop (suc left) i sum = elim (add_int sum i) [
  | none ↦ none
  | some sum' ↦ sum_loop left (i + 1) sum'
]

unfoldable pub sum : ℤ → Option ℕ
sum (pos len) = sum_loop len 0 0
sum (negsuc len) = some 0
