-- ===== src/Sha2/Roots.antt =====
-- The constants are the first bits behind the point of the cube roots of the first primes.
use net_port.Common.{
  ℕ, zero, suc, ◌+◌, ◌*◌, ◌^◌, ◌%◌, ◌≡◌, refl, Bool, true, false, ◌&&◌, ◌||◌, not, List, [], ◌∷◌,
  ◌==◌, if◌then◌else◌, ltb, leb,
}
use net_port.Sha2.{shk_2, shk5}

-- No number from 2 up to `d` that is below `n` divides `n`.
abbrev undivided : ℕ → ℕ → Bool
undivided n zero = true
undivided n (suc d) =
    let rest = undivided n d in (leb d 0 || leb n (suc d) || not (n % suc d == 0)) && rest

-- The primes below 410: a number below 21 * 21 with no divisor up to 20 is a prime.
abbrev primes_from : ℕ → ℕ → List ℕ
primes_from n zero = []
primes_from n (suc left) =
    let rest = primes_from (n + 1) left in if undivided n 20 then n ∷ rest else rest

abbrev cube : ℕ → ℕ
cube x = x * x * x

-- Some whole part up to `w` makes `k`, with `bits` bits, the bits behind the point of a cube root.
abbrev is_root : ℕ → ℕ → ℕ → ℕ → Bool
is_root bits p k zero = false
is_root bits p k (suc w) =
    let rest = is_root bits p k w in
    let root = w * 2 ^ bits + k in
    (leb (cube root) (p * 2 ^ (3 * bits)) && ltb (p * 2 ^ (3 * bits)) (cube (root + 1))) || rest

-- The constants of the second list belong to the primes of the first, one by one.
abbrev are_roots : ℕ → List ℕ → List ℕ → Bool
are_roots bits [] [] = true
are_roots bits [] (k ∷ ks) = false
are_roots bits (p ∷ ps) [] = false
are_roots bits (p ∷ ps) (k ∷ ks) =
    let rest = are_roots bits ps ks in ltb k (2 ^ bits) && is_root bits p k 8 && rest

-- The first 32 bits of the cube roots of the first 64 primes
shk_2-roots : are_roots 32 (primes_from 2 310) shk_2 ≡ true
unfolding shk_2
shk_2-roots = refl

-- The first 64 bits of the cube roots of the first 80 primes
shk5-roots : are_roots 64 (primes_from 2 408) shk5 ≡ true
unfolding shk5
shk5-roots = refl
