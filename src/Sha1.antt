-- ===== src/Sha1.antt =====
-- `sha1_state` of src/crypt.cpp and the calls of `Hash` that drive it.
pub mod Blocks
pub mod Padding
mod Tests
use net_port.Common.{
  ℕ, zero, suc, ◌+◌, ◌-◌, ◌*◌, ◌^◌, ◌%◌, ◌≡◌, Bool, true, false, List, [], ◌∷◌, ◌++◌, Option, none,
  some, ◌==◌, ltb, if◌then◌else◌, u8, u32, u64, ◌<<◌, ◌>>◌, bit_and, bit_or, bit_xor, get_or,
}
use net_port.Buffer.{Buffer, zeros, set_byte}

-- The five words of `hash`.
pub record Hash : Type 0 where
  pub a : ℕ
  pub b : ℕ
  pub c : ℕ
  pub d : ℕ
  pub e : ℕ

pub record Sha1 : Type 0 where
  pub hash : Hash
  pub len : ℕ
  pub mc : Buffer

abbrev pub first_hash : Hash
first_hash = record {
  a = 0x67452301;
  b = 0xefcdab89;
  c = 0x98badcfe;
  d = 0x10325476;
  e = 0xc3d2e1f0;
}

unfoldable pub init : Sha1 → Sha1
init s = record s { hash = first_hash; len = 0 }

-- (x << k) | (x >> (32 - k)), the left shift cut to 32 bits
abbrev pub rotate : ℕ → ℕ → ℕ
rotate x k = bit_or (u32 (x << k)) (x >> (32 - k))

abbrev pub xor4 : ℕ → ℕ → ℕ → ℕ → ℕ
xor4 x y z w = bit_xor (bit_xor (bit_xor x y) z) w

-- w[i] = (mc[4i] << 24) | (mc[4i+1] << 16) | (mc[4i+2] << 8) | mc[4i+3] for i below 16
abbrev pub message_word : Buffer → ℕ → ℕ
message_word mc i =
    bit_or (bit_or (bit_or (mc (i * 4) << 24) (mc (i * 4 + 1) << 16)) (mc (i * 4 + 2) << 8))
      (mc (i * 4 + 3))

unfoldable pub load_words : ℕ → ℕ → Buffer → Buffer → Buffer
load_words zero i mc w = w
load_words (suc left) i mc w = load_words left (i + 1) mc (set_byte w i (message_word mc i))

-- w[i] for i from 16 to 79
unfoldable pub extend_words : ℕ → ℕ → Buffer → Buffer
extend_words zero i w = w
extend_words (suc left) i w =
    let f = xor4 (w (i - 3)) (w (i - 8)) (w (i - 14)) (w (i - 16)) in
    extend_words left (i + 1) (set_byte w i (bit_or (u32 (f << 1)) (f >> 31)))

-- The mixing function and the constant of each loop.
abbrev pub choose : ℕ → ℕ → ℕ → ℕ
choose b c d = bit_xor d (bit_and b (bit_xor c d))

abbrev pub parity : ℕ → ℕ → ℕ → ℕ
parity b c d = bit_xor (bit_xor b c) d

abbrev pub majority : ℕ → ℕ → ℕ → ℕ
majority b c d = bit_or (bit_and b c) (bit_and d (bit_or b c))

-- The body of a loop: f += ...; e = d; d = c; c = rotated b; b = a; a = f.
abbrev pub turn : (ℕ → ℕ → ℕ → ℕ) → ℕ → ℕ → Hash → Hash
turn f k w h = record {
  a = u32 (f h.b h.c h.d + (rotate h.a 5 + h.e + w + k));
  b = h.a;
  c = bit_or (u32 (h.b << 30)) (h.b >> 2);
  d = h.c;
  e = h.d;
}

unfoldable pub turns : ℕ → ℕ → (ℕ → ℕ → ℕ → ℕ) → ℕ → Buffer → Hash → Hash
turns zero i f k w h = h
turns (suc left) i f k w h = turns left (i + 1) f k w (turn f k (w i) h)

abbrev pub add_hash : Hash → Hash → Hash
add_hash h g = record {
  a = u32 (h.a + g.a);
  b = u32 (h.b + g.b);
  c = u32 (h.c + g.c);
  d = u32 (h.d + g.d);
  e = u32 (h.e + g.e);
}

-- The 80 words.
unfoldable pub schedule : Buffer → Buffer
schedule mc = extend_words 64 16 (load_words 16 0 mc zeros)

-- The four loops over the words, and the sum with the hash before them.
unfoldable pub rounds : Hash → Buffer → Hash
rounds h w =
    let h₁ = turns 20 0 choose 0x5a827999 w h in
    let h₂ = turns 20 20 parity 0x6ed9eba1 w h₁ in
    let h₃ = turns 20 40 majority 0x8f1bbcdc w h₂ in
    let h₄ = turns 20 60 parity 0xca62c1d6 w h₃ in add_hash h h₄

unfoldable pub compress : Hash → Buffer → Hash
compress h mc = rounds h (schedule mc)

unfoldable pub block_update : Sha1 → Sha1
block_update s = record s { hash = compress s.hash s.mc }

-- mc[(cl++) & 0x3f] = m; if(!(cl & 0x3f)) block_update();
unfoldable pub add_byte : ℕ → Sha1 → Sha1
add_byte m s =
    let t : Sha1 = record s { len = u64 (s.len + 1); mc = set_byte s.mc (bit_and s.len 0x3f) m } in
    if bit_and t.len 0x3f == 0 then block_update t else t

-- add_message on a null pointer or no bytes does nothing.
unfoldable pub add_message : List ℕ → Sha1 → Sha1
add_message [] s = s
add_message (m ∷ ms) s = add_message ms (add_byte m s)

-- The padding loop of end_message at the counter `cl`; `none` if the fuel runs out.
unfoldable pub pad_loop : ℕ → ℕ → Sha1 → Option Sha1
pad_loop zero cl s = none
pad_loop (suc fuel) cl s = elim (bit_and cl 0x3f == 56) [
  | true ↦ some s
  | false ↦
      let t = if bit_and cl 0x3f == 0 then block_update s else s in
      pad_loop fuel (u64 (cl + 1)) (record t { mc = set_byte t.mc (bit_and cl 0x3f) 0x00 })
]

-- mc[56] to mc[63]: the length in bits, the highest byte first
abbrev pub set_length : Buffer → ℕ → Buffer
set_length mc n =
    let mc₁ = set_byte (set_byte mc 56 (u8 (n >> 56))) 57 (u8 (n >> 48)) in
    let mc₂ = set_byte (set_byte mc₁ 58 (u8 (n >> 40))) 59 (u8 (n >> 32)) in
    let mc₃ = set_byte (set_byte mc₂ 60 (u8 (n >> 24))) 61 (u8 (n >> 16)) in
    set_byte (set_byte mc₃ 62 (u8 (n >> 8))) 63 (u8 n)

-- The length is shifted to bits and written, and the last block is processed.
unfoldable pub finish : Sha1 → Sha1
finish s = let n = u64 (s.len << 3) in block_update (record s { len = n; mc = set_length s.mc n })

unfoldable pub end_message : Sha1 → Option Sha1
end_message s =
    elim (pad_loop 64 (u64 (s.len + 1))
      (record s { mc = set_byte s.mc (bit_and s.len 0x3f) 0x80 })) [
        | none ↦ none
        | some t ↦ some (finish t)
      ]

-- Hash::Full on a state, which is not null for HA_SHA1.
unfoldable pub full : List ℕ → Sha1 → Option Sha1
full m s = end_message (add_message m (init s))

abbrev pub digest : Sha1 → List ℕ
digest s = s.hash.a ∷ s.hash.b ∷ s.hash.c ∷ s.hash.d ∷ s.hash.e ∷ []
