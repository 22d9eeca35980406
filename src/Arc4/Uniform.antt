-- ===== src/Arc4/Uniform.antt =====
-- `arc4random_uniform`: its least accepted word is 2 ^ 32 modulo the bound, so every result comes
-- from the same number of words.
use native.Mathlib.Nat.{add-mul-mod_self_right, div-add-mod', mod-eq-sub-mod, mod-eq_of_lt}
use net_port.Common.{
  if◌then◌else◌, ◌∙◌, dec_lt, ℕ, zero, suc, ◌+◌, ◌-◌, ◌*◌, ◌/◌, ◌^◌, ◌%◌, ◌≤◌, ◌<◌, ◌≡◌, arith, leb,
  ltb, ap,
}
use net_port.Arc4.{uniform_min}

-- Both branches compute 2 ^ 32 modulo the bound without 64-bit arithmetic.
pub uniform_min_lem : (n : ℕ) → 2 ≤ n → n < 2 ^ 32 → uniform_min n ≡ 2 ^ 32 % n
unfolding uniform_min
uniform_min_lem n two word = elim (dec_lt 0x80000000 n) [
  | yes big ↦ ground (
    arith,
    mod-eq-sub-mod {n = 2 ^ 32} {m = n} (omega arith),
    mod-eq_of_lt {n = 2 ^ 32 - n} {m = n} (omega arith),
  )
  | no small ↦ ground (
    arith,
    mod-eq-sub-mod {n = 2 ^ 32} {m = n} (omega arith),
    mod-eq-sub-mod {n = 2 ^ 32 - n} {m = n} (omega arith),
  )
]

-- Adding to the least word of a block and reducing.
offset-mod :
    (n m w : ℕ) → m < n → w < n → (m + w) % n ≡ (if ltb (m + w) n then m + w else m + w - n)
offset-mod n m w hm hw = elim (dec_lt (m + w) n) [
  | yes low ↦ ground (arith, mod-eq_of_lt {n = m + w} {m = n} low)
  | no high ↦ ground (
    arith,
    mod-eq-sub-mod {n = m + w} {m = n} (omega arith),
    mod-eq_of_lt {n = m + w - n} {m = n} (omega arith),
  )
]

block-mod : (n m k w : ℕ) → (m + k * n + w) % n ≡ (m + w) % n
block-mod n m k w =
    ap (λ (t : ℕ). t % n) (let e : m + k * n + w ≡ m + w + k * n = omega arith in e)
    ∙ add-mul-mod_self_right (m + w) k n

-- One word of a block has the result `v`.
in_block :
    (n m k v : ℕ)
    → m < n
    → v < n
    → (r : ℕ) × (m + k * n ≤ r)
      × (r < m + suc k * n)
      × (r % n ≡ v)
      × ((s : ℕ) → m + k * n ≤ s → s < m + suc k * n → s % n ≡ v → s ≡ r)
in_block n m k v hm hv =
    let w = if leb m v then v - m else v + n - m in
    let short : w < n = ground arith in
    (
      m + k * n + w,
      omega arith,
      omega arith,
      ground (arith, block-mod n m k w, offset-mod n m w hm short),
      λ s low high e.
          let u = s - (m + k * n) in
          let at : s ≡ m + k * n + u = omega arith in
          let below : u < n = omega arith in
          ground (arith, block-mod n m k u, ap (λ (t : ℕ). t % n) at, offset-mod n m u hm below),
    )

half : (n m q : ℕ) → m < n → m + q * n ≡ 2 ^ 32 → n < 2 ^ 32 → m * 2 ≤ 2 ^ 32
half n m zero hm e word = absurd (omega arith)
half n m (suc q) hm e word = omega arith

-- The words that are accepted are the whole blocks of `n` words behind the least one, so every
-- result below `n` comes from exactly one word of each block, and at most half of all words are
-- rejected.
pub uniform-unbiased :
    (n v : ℕ)
    → 2 ≤ n
    → n < 2 ^ 32
    → v < n
    → (uniform_min n + 2 ^ 32 / n * n ≡ 2 ^ 32)
      × (uniform_min n * 2 ≤ 2 ^ 32)
      × ((k : ℕ)
          → k < 2 ^ 32 / n
          → (r : ℕ) × (uniform_min n + k * n ≤ r)
            × (r < uniform_min n + suc k * n)
            × (r % n ≡ v)
            × ((s : ℕ)
                → uniform_min n + k * n ≤ s
                → s < uniform_min n + suc k * n
                → s % n ≡ v
                → s ≡ r))
uniform-unbiased n v two word less =
    let m = 2 ^ 32 % n in
    let e : m + 2 ^ 32 / n * n ≡ 2 ^ 32 = omega (arith, div-add-mod' (2 ^ 32) n) in
    rw (uniform_min_lem n two word)
      (e, half n m (2 ^ 32 / n) (omega arith) e word, λ k hk. in_block n m k v (omega arith) less)
