-- ===== src/Common/Bits.antt =====
-- `&` with a low mask and `|` of disjoint fields as arithmetic, at every width, from the law of
-- the lowest binary digit.
use Prim.Native.Nat.{
  ℕ, zero, suc, ◌+◌, ◌-◌, ◌*◌, ◌/◌, ◌%◌, ◌^◌, ◌≤◌, ◌<◌, min, max, bit_and, bit_or, digits,
  bit_and-bitwise, bit_or-bitwise,
}
use mathlib.Core.Path.{◌≡◌, refl, ap}
use native.Mathlib.Nat.{pow-suc, one-le-pow}
use native.Mathlib.Omega.{arith}

-- The native operations mean a recursion on digits whose fuel is the first number; any more fuel
-- gives the same.
module _ (rest : ℕ → ℕ) (digit : ℕ → ℕ → ℕ) where
  digits-fuel_irrelevant :
      (k l a b : ℕ) → a ≤ k → a ≤ l → digits rest digit k a b ≡ digits rest digit l a b
  digits-fuel_irrelevant zero zero a b hk hl = refl
  digits-fuel_irrelevant (suc k) zero zero b hk hl = refl
  digits-fuel_irrelevant (suc k) zero (suc a) b hk hl = absurd (omega arith)
  digits-fuel_irrelevant zero (suc l) zero b hk hl = refl
  digits-fuel_irrelevant zero (suc l) (suc a) b hk hl = absurd (omega arith)
  digits-fuel_irrelevant (suc k) (suc l) zero b hk hl = refl
  digits-fuel_irrelevant (suc k) (suc l) (suc a) b hk hl =
      ap (λ (t : ℕ). t * 2 + digit (suc a % 2) (b % 2))
        (digits-fuel_irrelevant k l (suc a / 2) (b / 2) (omega arith) (omega arith))

pub bit_and-digit : (a b : ℕ) → bit_and a b ≡ bit_and (a / 2) (b / 2) * 2 + min (a % 2) (b % 2)
bit_and-digit zero b = omega (arith, bit_and-bitwise 0 b, bit_and-bitwise 0 (b / 2))
bit_and-digit (suc a) b = omega (
  arith,
  bit_and-bitwise (suc a) b,
  bit_and-bitwise (suc a / 2) (b / 2),
  digits-fuel_irrelevant (λ _. 0) min a (suc a / 2) (suc a / 2) (b / 2) (omega arith) (omega arith),
)

pub bit_or-digit : (a b : ℕ) → bit_or a b ≡ bit_or (a / 2) (b / 2) * 2 + max (a % 2) (b % 2)
bit_or-digit zero b = omega (arith, bit_or-bitwise 0 b, bit_or-bitwise 0 (b / 2))
bit_or-digit (suc a) b = omega (
  arith,
  bit_or-bitwise (suc a) b,
  bit_or-bitwise (suc a / 2) (b / 2),
  digits-fuel_irrelevant (λ y. y) max a (suc a / 2) (suc a / 2) (b / 2) (omega arith) (omega arith),
)

bit_and-zero_below : (k a : ℕ) → a ≤ k → bit_and a 0 ≡ 0
bit_and-zero_below k zero h = refl
bit_and-zero_below zero (suc a) h = absurd (omega arith)
bit_and-zero_below (suc k) (suc a) h =
    omega (arith, bit_and-digit (suc a) 0, bit_and-zero_below k (suc a / 2) (omega arith))

bit_or-zero_below : (k a : ℕ) → a ≤ k → bit_or a 0 ≡ a
bit_or-zero_below k zero h = refl
bit_or-zero_below zero (suc a) h = absurd (omega arith)
bit_or-zero_below (suc k) (suc a) h =
    omega (arith, bit_or-digit (suc a) 0, bit_or-zero_below k (suc a / 2) (omega arith))

doubled : (q k : ℕ) → q * 2 ^ suc k ≡ 2 * (q * 2 ^ k)
doubled q k = omega (arith, ap (λ (t : ℕ). q * t) (pow-suc 2 k))

bit_and-low_mask_fields : (k q r : ℕ) → r < 2 ^ k → bit_and (q * 2 ^ k + r) (2 ^ k - 1) ≡ r
bit_and-low_mask_fields zero q r fits =
    omega (arith, bit_and-zero_below (q * 1 + r) (q * 1 + r) (omega arith))
bit_and-low_mask_fields (suc k) q r fits = ground (
  arith,
  pow-suc 2 k,
  doubled q k,
  one-le-pow k 2,
  bit_and-digit (q * 2 ^ suc k + r) (2 ^ suc k - 1),
  bit_and-low_mask_fields k q (r / 2),
)

-- `a & (2 ^ k - 1)` is the remainder.
pub bit_and-low_mask : (k a : ℕ) → bit_and a (2 ^ k - 1) ≡ a % 2 ^ k
bit_and-low_mask k a =
    ground (arith, one-le-pow k 2, bit_and-low_mask_fields k (a / 2 ^ k) (a % 2 ^ k))

-- `a & (m << k)` drops the low bits of `a`.
pub bit_and-high_mask :
    (k q r m : ℕ) → r < 2 ^ k → bit_and (q * 2 ^ k + r) (m * 2 ^ k) ≡ bit_and q m * 2 ^ k
bit_and-high_mask zero q r m fits = ground arith
bit_and-high_mask (suc k) q r m fits = ground (
  arith,
  pow-suc 2 k,
  doubled q k,
  doubled m k,
  doubled (bit_and q m) k,
  bit_and-digit (q * 2 ^ suc k + r) (m * 2 ^ suc k),
  bit_and-high_mask k q (r / 2) m,
)

-- `(q << k) | r` is a sum when `r` fits into `k` bits.
pub bit_or-fields : (k q r : ℕ) → r < 2 ^ k → bit_or (q * 2 ^ k) r ≡ q * 2 ^ k + r
bit_or-fields zero q r fits = ground (arith, bit_or-zero_below q q (omega arith))
bit_or-fields (suc k) q r fits =
    ground
      (arith, pow-suc 2 k, doubled q k, bit_or-digit (q * 2 ^ suc k) r, bit_or-fields k q (r / 2))
