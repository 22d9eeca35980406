-- ===== src/Address/Itoan.antt =====
-- `n_itoan` (src/network.cpp): an int as text in a radix, written into a buffer.
pub mod Value
use net_port.Common.{
  ℕ, zero, suc, ◌+◌, ◌-◌, ◌*◌, ◌/◌, ◌%◌, ◌^◌, ◌≤◌, ◌<◌, ◌≡◌, ◌≢◌, ◌∙◌, refl, sym, ap, arith, Bool,
  true, false, ◌||◌, List, [], ◌∷◌, ◌++◌, ◌==◌, leb, ltb, if◌then◌else◌, length, ℤ, pos, negsuc,
}

-- RadixLookup
unfoldable pub radix_lookup : ℕ → ℕ
radix_lookup k =
    if ltb k 10
    then 48 + k
    else if ltb k 36
    then 87 + k
    else if ltb k 62
    then 29 + k
    else if k == 62
    then 47
    else 61

-- The loop, which puts every digit before those it has: `room` counts the positions up to the last
-- but one.
unfoldable pub itoan_loop : ℕ → ℕ → ℕ → List ℕ → List ℕ
itoan_loop radix zero v digits = digits
itoan_loop radix (suc room) v digits = elim (v == 0) [
  | true ↦ digits
  | false ↦ itoan_loop radix room (v / radix) (radix_lookup (v % radix) ∷ digits)
]

-- NULL, a fault, or the text in the buffer up to its zero byte.
pub data Written : Type 0 where
  refused : Written
  fault : Written
  in_buffer : (s : List ℕ) → Written

-- On a buffer that is not null. The negation of the least int overflows.
unfoldable pub n_itoan : ℤ → ℕ → ℕ → Written
n_itoan v bufn radix = if ltb bufn 2 || (ltb radix 1 || ltb 64 radix) then refused else elim v [
  | pos n ↦ in_buffer (if n == 0 then 48 ∷ [] else itoan_loop radix (bufn - 1) n [])
  | negsuc n ↦
      if n == 2 ^ 31 - 1 then fault else in_buffer (45 ∷ itoan_loop radix (bufn - 2) (n + 1) [])
]
