-- ===== src/Arc4/Reroll.antt =====
-- The loop of `arc4random_uniform`: it ends with the first word that is accepted.
use net_port.Common.{ℕ, zero, suc, ◌%◌, ◌≤◌, ◌<◌, ◌≡◌, arith, some}
use net_port.Arc4.{Arc4, Source, arc4random, uniform_min, reroll, arc4random_uniform}

-- The state before the `k`-th word of a series of calls, and that word.
unfoldable pub after_draws : ℕ → (ℕ → Source) → Arc4 → Arc4
after_draws zero sources a = a
after_draws (suc k) sources a = after_draws k (λ i. sources (suc i)) (arc4random (sources 0) a).1

abbrev pub drawn_word : ℕ → (ℕ → Source) → Arc4 → ℕ
drawn_word k sources a = (arc4random (sources k) (after_draws k sources a)).0

reroll-first :
    (fuel min k : ℕ) (sources : ℕ → Source) (a : Arc4)
    → k < fuel
    → min ≤ drawn_word k sources a
    → ((i : ℕ) → i < k → drawn_word i sources a < min)
    → reroll fuel min sources a
      ≡ some (drawn_word k sources a, (arc4random (sources k) (after_draws k sources a)).1)
unfolding reroll after_draws
reroll-first zero min k sources a less hit miss = absurd (omega arith)
reroll-first (suc fuel) min zero sources a less hit miss = ground arith
reroll-first (suc fuel) min (suc k) sources a less hit miss = ground (
  arith,
  miss 0 (omega arith),
  reroll-first fuel min k (λ i. sources (suc i)) (arc4random (sources 0) a).1 (omega arith) hit
      (λ i p. miss (suc i) (omega arith)),
)

-- If the `k`-th word drawn is the first that is not below the least one accepted, and the loop is
-- given more than `k` rounds, the result is that word modulo the bound; it is below the bound.
pub arc4random_uniform-first :
    (fuel n k : ℕ) (sources : ℕ → Source) (a : Arc4)
    → 2 ≤ n
    → k < fuel
    → uniform_min n ≤ drawn_word k sources a
    → ((i : ℕ) → i < k → drawn_word i sources a < uniform_min n)
    → (b : Arc4) × (arc4random_uniform fuel n sources a ≡ some (drawn_word k sources a % n, b))
      × (drawn_word k sources a % n < n)
unfolding arc4random_uniform
arc4random_uniform-first fuel n k sources a two less hit miss = (
  (arc4random (sources k) (after_draws k sources a)).1,
  ground (arith, reroll-first fuel (uniform_min n) k sources a less hit miss),
  omega arith,
)
