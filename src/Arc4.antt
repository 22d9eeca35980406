-- ===== src/Arc4.antt =====
-- src/arc4random.cpp: the arc4 stream, its seeding and the two functions that give random words.
-- The lock makes each call one step. What the entropy sources return is a parameter.
pub mod Permutation
pub mod Uniform
pub mod Reroll
mod Tests
use net_port.Common.{
  ℕ, zero, suc, ◌+◌, ◌-◌, ◌*◌, ◌^◌, ◌%◌, ◌≤◌, ◌<◌, ◌≡◌, Bool, true, false, not, ◌||◌, List, [], ◌∷◌,
  Option, none, some, ltb, leb, ◌==◌, if◌then◌else◌, u8, u32, ◌<<◌, bit_and, bit_or, ℤ, pos, minus,
  is_nonpos,
}
use net_port.Buffer.{Buffer, zeros, set_byte}

-- `arc4_stream`; `s` has 256 entries.
pub record Stream : Type 0 where
  pub i : ℕ
  pub j : ℕ
  pub s : Buffer

-- for(n = 0; n < 256; n++) rs.s[n] = n;
pub init_loop : ℕ → ℕ → Buffer → Buffer
init_loop zero n s = s
init_loop (suc left) n s = init_loop left (n + 1) (set_byte s n (u8 n))

unfoldable pub arc4_init : Stream → Stream
unfolding init_loop
arc4_init rs = record { i = 0; j = 0; s = init_loop 256 0 rs.s }

-- s[i] = s[j]; s[j] = si;
abbrev pub swap : Buffer → ℕ → ℕ → Buffer
swap s i j = set_byte (set_byte s i (s j)) j (s i)

abbrev pub mix : Buffer → ℕ → ℕ → Stream → Stream
mix dat datlen n rs =
    let i = u8 (rs.i + 1) in
    let j = u8 (rs.j + rs.s i + dat (n % datlen)) in record { i = i; j = j; s = swap rs.s i j }

pub mix_loop : ℕ → ℕ → Buffer → ℕ → Stream → Stream
mix_loop zero n dat datlen rs = rs
mix_loop (suc left) n dat datlen rs = mix_loop left (n + 1) dat datlen (mix dat datlen n rs)

unfoldable pub arc4_addrandom : Buffer → ℕ → Stream → Stream
unfolding mix_loop
arc4_addrandom dat datlen rs =
    let mixed = mix_loop 256 0 dat datlen (record rs { i = u8 (rs.i + 255) }) in
    record mixed { j = mixed.i }

unfoldable pub arc4_getbyte : Stream → ℕ × Stream
arc4_getbyte rs =
    let i = u8 (rs.i + 1) in
    let si = rs.s i in
    let j = u8 (rs.j + si) in
    let sj = rs.s j in
    let s = swap rs.s i j in (s (bit_and (si + sj) 0xff), record { i = i; j = j; s = s })

unfoldable pub arc4_getword : Stream → ℕ × Stream
unfolding arc4_getbyte
arc4_getword rs =
    let (a, rs₁) = arc4_getbyte rs in
    let (b, rs₂) = arc4_getbyte rs₁ in
    let (c, rs₃) = arc4_getbyte rs₂ in
    let (d, rs₄) = arc4_getbyte rs₃ in
    (bit_or (bit_or (bit_or (a << 24) (b << 16)) (c << 8)) d, rs₄)

-- The static variables of the file. `count` is an int in the code; it stays in the range of one if
-- seeding succeeds within the first 2 ^ 31 bytes drawn, and the integer here has no bound.
pub record Arc4 : Type 0 where
  pub rs : Stream
  pub initialized : Bool
  pub count : ℤ
  pub seeded_ok : Bool

-- What the named file gives: 32 bytes, or a failure to open or to read them.
abbrev pub Source : Type 0
Source = ℕ → Option Buffer

abbrev pub add_entropy : ℕ
add_entropy = 32

abbrev pub bytes_before_reseed : ℕ
bytes_before_reseed = 1600000

-- arc4_seed_urandom_helper_
abbrev pub seed_file : Option Buffer → Arc4 → Option Arc4
seed_file none a = none
seed_file (some buf) a =
    some (record a { rs = arc4_addrandom buf add_entropy a.rs; seeded_ok = true })

-- arc4_seed_urandom: the first file that can be read, out of `left` from the `i`-th on.
pub seed_urandom : Source → ℕ → ℕ → Arc4 → Option Arc4
seed_urandom source zero i a = none
seed_urandom source (suc left) i a = elim (seed_file (source i) a) [
  | some b ↦ some b
  | none ↦ seed_urandom source left (i + 1) a
]

-- arc4_seed: a failure leaves the state as it is.
unfoldable pub arc4_seed : Source → Arc4 → Arc4
unfolding seed_urandom
arc4_seed source a = elim (seed_urandom source 3 0 a) [ none ↦ a | some b ↦ b ]

pub discard : ℕ → Stream → Stream
discard zero rs = rs
discard (suc n) rs = discard n (arc4_getbyte rs).1

-- The rest of arc4_stir after seeding; its result 0 is true.
unfoldable pub stirred : Arc4 → Arc4 × Bool
unfolding discard
stirred c =
    if not c.seeded_ok
    then (c, false)
    else (record c { rs = discard (12 * 256) c.rs; count = pos bytes_before_reseed }, true)

unfoldable pub arc4_stir : Source → Arc4 → Arc4 × Bool
unfolding arc4_seed
arc4_stir source a = stirred (
    arc4_seed source
      (if a.initialized then a else record a { rs = arc4_init a.rs; initialized = true }))

unfoldable pub arc4_stir_if_needed : Source → Arc4 → Arc4
arc4_stir_if_needed source a =
    if is_nonpos a.count || not a.initialized then (arc4_stir source a).0 else a

unfoldable pub arc4random : Source → Arc4 → ℕ × Arc4
arc4random source a =
    let b = arc4_stir_if_needed source (record a { count = minus a.count 4 }) in
    let (val, rs) = arc4_getword b.rs in (val, record b { rs = rs })

-- The least word that arc4random_uniform accepts, by 32-bit arithmetic.
unfoldable pub uniform_min : ℕ → ℕ
uniform_min n =
    if ltb 0x80000000 n
    then u32 (1 + (2 ^ 32 - 1 - n))
    else u32 (2 ^ 32 - 1 + 2 ^ 32 - u32 (n * 2) + 1) % n

-- for(;;) { r = arc4random(); if(r >= min) break; } with at most `fuel` rounds.
unfoldable pub reroll : ℕ → ℕ → (ℕ → Source) → Arc4 → Option (ℕ × Arc4)
reroll zero min sources a = none
reroll (suc fuel) min sources a =
    let (r, b) = arc4random (sources 0) a in
    elim (leb min r) [ true ↦ some (r, b) | false ↦ reroll fuel min (λ k. sources (suc k)) b ]

unfoldable pub arc4random_uniform : ℕ → ℕ → (ℕ → Source) → Arc4 → Option (ℕ × Arc4)
arc4random_uniform fuel n sources a =
    if ltb n 2 then some (0, a) else elim (reroll fuel (uniform_min n) sources a) [
      | none ↦ none
      | some (r, b) ↦ some (r % n, b)
    ]
