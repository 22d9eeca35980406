-- ===== src/Arc4/Permutation.antt =====
-- The table of the stream is a permutation of the bytes, and stays one.
use net_port.Common.{
  Bool, if-cases, ◌||◌, bit_or-fields, ℕ, zero, suc, ◌+◌, ◌*◌, ◌^◌, ◌≤◌, ◌<◌, ◌≡◌, refl, arith,
  true, Option, none, some, u8, bit_and, bit_and-low_mask, inl, inr, Option-cases,
}
use net_port.Arc4.{
  stirred, minus, is_nonpos, bytes_before_reseed, pos, ℤ, not, Stream, Arc4, Source, init_loop,
  arc4_init, swap, mix, mix_loop, arc4_addrandom, arc4_getbyte, arc4_getword, seed_file,
  seed_urandom, arc4_seed, discard, arc4_stir, arc4_stir_if_needed, arc4random, add_entropy,
}
use net_port.Buffer.{Buffer, set_byte}

-- The 256 entries are bytes, and no two are equal.
pub record IsPermutation (s : Buffer) : Type 0 where
  pub bytes : (k : ℕ) → k < 256 → s k < 256
  pub distinct : (k l : ℕ) → k < 256 → l < 256 → s k ≡ s l → k ≡ l

swap-IsPermutation :
    (s : Buffer) (i j : ℕ) → i < 256 → j < 256 → IsPermutation s → IsPermutation (swap s i j)
swap-IsPermutation s i j hi hj v = record {
  bytes = λ k hk. ground (arith, v.bytes k, v.bytes i, v.bytes j);
  distinct = λ k l hk hl e. ground (
    arith,
    v.distinct k l,
    v.distinct k j,
    v.distinct k i,
    v.distinct i l,
    v.distinct j l,
    v.distinct i j,
  );
}

abbrev pub IsStream : Stream → Type 0
IsStream rs = (rs.i < 256) × (rs.j < 256) × IsPermutation rs.s

mix-IsStream :
    (dat : Buffer) (datlen n : ℕ) (rs : Stream) → IsStream rs → IsStream (mix dat datlen n rs)
mix-IsStream dat datlen n rs v =
    (omega arith, omega arith, swap-IsPermutation rs.s _ _ (omega arith) (omega arith) v.2)

mix_loop-IsStream :
    (left n : ℕ) (dat : Buffer) (datlen : ℕ) (rs : Stream)
    → IsStream rs
    → IsStream (mix_loop left n dat datlen rs)
unfolding mix_loop
mix_loop-IsStream zero n dat datlen rs v = v
mix_loop-IsStream (suc left) n dat datlen rs v =
    mix_loop-IsStream left (n + 1) dat datlen (mix dat datlen n rs) (mix-IsStream dat datlen n rs v)

pub arc4_addrandom-IsStream :
    (dat : Buffer) (datlen : ℕ) (rs : Stream)
    → IsStream rs
    → IsStream (arc4_addrandom dat datlen rs)
unfolding arc4_addrandom
arc4_addrandom-IsStream dat datlen rs v =
    let w =
      mix_loop-IsStream 256 0 dat datlen (record rs { i = u8 (rs.i + 255) })
        (omega arith, v.1, v.2) in
    (w.0, w.0, w.2)

init_loop_at :
    (left n : ℕ) (s : Buffer) (k : ℕ)
    → n + left ≤ 256
    → ((k < n) → s k ≡ k)
    → k < n + left
    → init_loop left n s k ≡ k
unfolding init_loop
init_loop_at zero n s k h done less = done (omega arith)
init_loop_at (suc left) n s k h done less =
    init_loop_at left (n + 1) (set_byte s n (u8 n)) k (omega arith) (λ p. ground (arith, done))
      (omega arith)

arc4_init-IsStream : (rs : Stream) → IsStream (arc4_init rs)
unfolding arc4_init
arc4_init-IsStream rs =
    let at : (k : ℕ) → k < 256 → init_loop 256 0 rs.s k ≡ k =
      λ k hk. init_loop_at 256 0 rs.s k (omega arith) (λ p. absurd (omega arith)) hk in
    (
      omega arith,
      omega arith,
      record {
        bytes = λ k hk. omega (arith, at k hk);
        distinct = λ k l hk hl e. omega (arith, at k hk, at l hl);
      },
    )

-- A byte is taken, and the table is still a permutation.
pub arc4_getbyte-IsStream :
    (rs : Stream) → IsStream rs → ((arc4_getbyte rs).0 < 256) × IsStream (arc4_getbyte rs).1
unfolding arc4_getbyte
arc4_getbyte-IsStream rs v =
    let i = u8 (rs.i + 1) in
    let j = u8 (rs.j + rs.s i) in
    let w = swap-IsPermutation rs.s i j (omega arith) (omega arith) v.2 in
    let index = bit_and (rs.s i + rs.s j) 0xff in
    (
      w.bytes index (omega (arith, bit_and-low_mask 8 (rs.s i + rs.s j))),
      (omega arith, omega arith, w),
    )

pub arc4_getword-IsStream :
    (rs : Stream) → IsStream rs → ((arc4_getword rs).0 < 2 ^ 32) × IsStream (arc4_getword rs).1
unfolding arc4_getword
arc4_getword-IsStream rs v =
    let (ha, v₁) = arc4_getbyte-IsStream rs v in
    let rs₁ = (arc4_getbyte rs).1 in
    let (hb, v₂) = arc4_getbyte-IsStream rs₁ v₁ in
    let rs₂ = (arc4_getbyte rs₁).1 in
    let (hc, v₃) = arc4_getbyte-IsStream rs₂ v₂ in
    let rs₃ = (arc4_getbyte rs₂).1 in
    let (hd, v₄) = arc4_getbyte-IsStream rs₃ v₃ in
    let a = (arc4_getbyte rs).0 in
    let b = (arc4_getbyte rs₁).0 in
    let c = (arc4_getbyte rs₂).0 in
    let d = (arc4_getbyte rs₃).0 in
    (
      ground (
        arith,
        bit_or-fields 24 a (b * 2 ^ 16),
        bit_or-fields 16 (a * 2 ^ 8 + b) (c * 2 ^ 8),
        bit_or-fields 8 (a * 2 ^ 16 + b * 2 ^ 8 + c) d,
      ),
      v₄,
    )

discard-IsStream : (n : ℕ) (rs : Stream) → IsStream rs → IsStream (discard n rs)
unfolding discard
discard-IsStream zero rs v = v
discard-IsStream (suc n) rs v = discard-IsStream n _ (arc4_getbyte-IsStream rs v).1

-- Once the table is set up it is a permutation.
pub record IsReady (a : Arc4) : Type 0 where
  pub ready : a.initialized ≡ true
  pub stream : IsStream a.rs

abbrev pub IsSound : Arc4 → Type 0
IsSound a = a.initialized ≡ true → IsStream a.rs

abbrev SeedSound : Option Arc4 → Type 0
SeedSound none = Unit {0}
SeedSound (some b) = IsReady b

seed_urandom-IsReady :
    (source : Source) (left i : ℕ) (a : Arc4) → IsReady a → SeedSound (seed_urandom source left i a)
unfolding seed_urandom seed_file
seed_urandom-IsReady source zero i a v = tt
seed_urandom-IsReady source (suc left) i a v = elim (Option-cases (source i)) [
  | inl e ↦ rw (e, seed_urandom, seed_file) (seed_urandom-IsReady source left (i + 1) a v)
  | inr (buf, e) ↦
      rw (e, seed_urandom, seed_file)
        (record { ready = v.ready; stream = arc4_addrandom-IsStream buf add_entropy a.rs v.stream })
]

arc4_seed-IsReady : (source : Source) (a : Arc4) → IsReady a → IsReady (arc4_seed source a)
unfolding arc4_seed
arc4_seed-IsReady source a v = elim (Option-cases (seed_urandom source 3 0 a)) [
  | inl e ↦ rw (e, arc4_seed) v
  | inr (b, e) ↦ rw (e, arc4_seed) (rw e at (seed_urandom-IsReady source 3 0 a v))
]

discarded-IsReady :
    (n : ℕ) (c : Arc4) (count : ℤ)
    → IsReady c
    → IsReady (record c { rs = discard n c.rs; count = count })
discarded-IsReady n c count v = record {
  ready = v.ready;
  stream = discard-IsStream n c.rs v.stream;
}

stirred-IsReady : (c : Arc4) → IsReady c → IsReady (stirred c).0
unfolding stirred
stirred-IsReady c v =
    if-cases (λ (r : Arc4 × Bool). IsReady r.0) (not c.seeded_ok) _ _ (λ e. v)
      (λ e. discarded-IsReady (12 * 256) c (pos bytes_before_reseed) v)

arc4_stir-IsReady : (source : Source) (a : Arc4) → IsSound a → IsReady (arc4_stir source a).0
unfolding arc4_stir
arc4_stir-IsReady source a v = stirred-IsReady _ (
    arc4_seed-IsReady source _ (
      if-cases IsReady a.initialized a (record a { rs = arc4_init a.rs; initialized = true })
        (λ old. record { ready = old; stream = v old })
        (λ new. record { ready = refl; stream = arc4_init-IsStream a.rs })))

stir_if_needed-IsReady :
    (source : Source) (a : Arc4) → IsSound a → IsReady (arc4_stir_if_needed source a)
unfolding arc4_stir_if_needed
stir_if_needed-IsReady source a v =
    if-cases IsReady (is_nonpos a.count || not a.initialized) _ a
      (λ e. arc4_stir-IsReady source a v)
      (λ e. let old : a.initialized ≡ true = ground arith in record { ready = old; stream = v old })

-- From a table that is a permutation, or from before the first use, a call gives a 32-bit word
-- and leaves the table a permutation, whatever the entropy sources do.
pub arc4random-IsReady :
    (source : Source) (a : Arc4)
    → IsSound a
    → ((arc4random source a).0 < 2 ^ 32) × IsReady (arc4random source a).1
unfolding arc4random
arc4random-IsReady source a v =
    let b = arc4_stir_if_needed source (record a { count = minus a.count 4 }) in
    let w = stir_if_needed-IsReady source (record a { count = minus a.count 4 }) v in
    let (word, stream) = arc4_getword-IsStream b.rs w.stream in
    (word, record { ready = w.ready; stream = stream })
