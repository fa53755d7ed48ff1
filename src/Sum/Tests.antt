-- ===== src/Sum/Tests.antt =====
-- main prints the sum of the numbers below 10.
use linux_c_study.Prelude.{ℕ, ◌+◌, ◌*◌, ◌≤◌, ◌<◌, ◌≡◌, refl, ◌⊎◌, none, some}
use linux_c_study.Prelude.Int.{pos, negsuc}
use linux_c_study.Sum.{add_int, sum_loop, sum}
use linux_c_study.Sum.Bounds.{sum_lem}

main-sum : sum (pos 10) ≡ some 45
unfolding sum sum_loop add_int
main-sum = refl

sum-negative : sum (negsuc 4) ≡ some 0
unfolding sum
sum-negative = refl

sum_lem_example :
    ((10 ≤ 65536) × (r : ℕ) × (sum (pos 10) ≡ some r) × (2 * r + 10 ≡ 10 * 10))
    ⊎ ((65536 < 10) × (sum (pos 10) ≡ none))
sum_lem_example = sum_lem 10
