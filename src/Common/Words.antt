-- ===== src/Common/Words.antt =====
-- Fixed widths, and the bytes of a word in memory order. The hosts that the library runs on store
-- the least significant byte first.
use Prim.Native.Nat.{ℕ, ◌+◌, ◌*◌, ◌/◌, ◌%◌, ◌^◌, ◌<◌}
use mathlib.Core.Path.{◌≡◌}
use mathlib.Core.List.{List, [], ◌∷◌}
use native.Mathlib.Omega.{arith}

abbrev pub u8 : ℕ → ℕ
u8 n = n % 2 ^ 8

abbrev pub u16 : ℕ → ℕ
u16 n = n % 2 ^ 16

abbrev pub u32 : ℕ → ℕ
u32 n = n % 2 ^ 32

abbrev pub u64 : ℕ → ℕ
u64 n = n % 2 ^ 64

infixl 75 ◌<<◌ ◌>>◌
abbrev pub ◌<<◌ : ℕ → ℕ → ℕ
x << k = x * 2 ^ k

abbrev pub ◌>>◌ : ℕ → ℕ → ℕ
x >> k = x / 2 ^ k

-- The object representation of a `uint32_t`.
abbrev pub bytes32 : ℕ → List ℕ
bytes32 v = u8 v ∷ u8 (v >> 8) ∷ u8 (v >> 16) ∷ u8 (v >> 24) ∷ []

abbrev pub word32 : List ℕ → ℕ
word32 (a ∷ b ∷ c ∷ d ∷ []) = a + b * 2 ^ 8 + c * 2 ^ 16 + d * 2 ^ 24
word32 _ = 0

pub word32-bytes32 : (v : ℕ) → v < 2 ^ 32 → word32 (bytes32 v) ≡ v
word32-bytes32 v h = omega arith
