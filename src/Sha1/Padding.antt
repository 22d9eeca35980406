-- ===== src/Sha1/Padding.antt =====
-- `end_message` feeds the padding of FIPS 180: a one bit, zeros up to 56 modulo 64, and the length
-- in bits.
use net_port.Common.{
  sym, ◌≢◌, ℕ, zero, suc, ◌+◌, ◌-◌, ◌*◌, ◌^◌, ◌%◌, ◌<◌, ◌≡◌, ◌∙◌, refl, ap, arith, List, [], ◌∷◌,
  ◌++◌, Option, none, some, ◌==◌, length, length-append, u8, u64, ◌<<◌, ◌>>◌, bit_and,
  bit_and-low_mask, if◌then◌else◌, All,
}
use net_port.Buffer.{set_byte, store}
use net_port.Packet.{zero_bytes}
use net_port.Packet.Complete.{length-zero_bytes}
use net_port.Sha1.{
  Sha1, first_hash, init, compress, block_update, add_byte, add_message, pad_loop, finish,
  end_message, full, set_length,
}
use net_port.Sha1.Blocks.{
  add_message-append, add_message-absorb, fill_block, absorb, concat, IsBlock,
}

-- The state at the counter `cl` with a full block processed.
abbrev settled : ℕ → Sha1 → Sha1
settled cl s = let t = if bit_and cl 0x3f == 0 then block_update s else s in record t { len = cl }

add_byte-len : (b : ℕ) (s : Sha1) → s.len + 1 < 2 ^ 64 → (add_byte b s).len ≡ s.len + 1
unfolding add_byte block_update
add_byte-len b s small = ground arith

abbrev next_state : ℕ → Sha1 → Sha1
next_state cl s =
    let t = if bit_and cl 0x3f == 0 then block_update s else s in
    record t { mc = set_byte t.mc (bit_and cl 0x3f) 0x00 }

settled-add_byte :
    (cl : ℕ) (s : Sha1)
    → cl + 1 < 2 ^ 64
    → settled (cl + 1) (next_state cl s) ≡ add_byte 0x00 (settled cl s)
unfolding add_byte block_update
settled-add_byte cl s small = ground arith

next_state-len : (cl : ℕ) (s : Sha1) → (next_state cl s).len ≡ s.len
unfolding block_update
next_state-len cl s = ground arith

pad_loop-next :
    (fuel cl : ℕ) (s : Sha1)
    → cl % 64 ≢ 56
    → cl + 1 < 2 ^ 64
    → pad_loop (suc fuel) cl s ≡ pad_loop fuel (cl + 1) (next_state cl s)
unfolding pad_loop
pad_loop-next fuel cl s more small = ground (arith, bit_and-low_mask 6 cl)

pad_loop_lem :
    (fuel k cl : ℕ) (s : Sha1)
    → k < fuel
    → k ≡ (120 - cl % 64) % 64
    → cl + k < 2 ^ 64
    → (t : Sha1) × (pad_loop fuel cl s ≡ some t)
      × (t.len ≡ s.len)
      × (record t { len = cl + k } ≡ add_message (zero_bytes k) (settled cl s))
unfolding pad_loop add_message
pad_loop_lem zero k cl s less e small = absurd (omega arith)
pad_loop_lem (suc fuel) zero cl s less e small =
    (s, ground (arith, bit_and-low_mask 6 cl), refl, ground (arith, bit_and-low_mask 6 cl))
pad_loop_lem (suc fuel) (suc k) cl s less e small =
    let (t, runs, len, rest) =
      pad_loop_lem fuel k (cl + 1) (next_state cl s) (omega arith) (omega arith) (omega arith) in
    let at : cl + suc k ≡ cl + 1 + k = omega arith in
    (
      t,
      pad_loop-next fuel cl s (λ h. omega arith) (omega arith) ∙ runs,
      len ∙ next_state-len cl s,
      ap (λ (n : ℕ). record t { len = n }) at
          ∙ rest
          ∙ ap (add_message (zero_bytes k)) (settled-add_byte cl s (omega arith)),
    )

-- The eight bytes of a number, the highest first.
abbrev pub bytes64 : ℕ → List ℕ
bytes64 n =
    u8 (n >> 56)
    ∷ u8 (n >> 48)
    ∷ u8 (n >> 40)
    ∷ u8 (n >> 32)
    ∷ u8 (n >> 24)
    ∷ u8 (n >> 16)
    ∷ u8 (n >> 8)
    ∷ u8 n
    ∷ []

abbrev pub zero_count : ℕ → ℕ
zero_count n = (119 - n % 64) % 64

-- The padding of a message of `n` bytes.
abbrev pub padding : ℕ → List ℕ
padding n = 0x80 ∷ (zero_bytes (zero_count n) ++ bytes64 (n * 8))

add_message-len :
    (m : List ℕ) (s : Sha1) → s.len + length m < 2 ^ 64 → (add_message m s).len ≡ s.len + length m
unfolding add_message
add_message-len [] s small = omega arith
add_message-len (b ∷ m) s small =
    omega (arith, add_message-len m (add_byte b s), add_byte-len b s (omega arith))

settled-first :
    (f : Sha1)
    → f.len + 1 < 2 ^ 64
    → settled (f.len + 1) (record f { mc = set_byte f.mc (bit_and f.len 0x3f) 0x80 })
      ≡ add_byte 0x80 f
unfolding add_byte block_update
settled-first f small = ground arith

finish-hash :
    (t : Sha1) (l : ℕ)
    → l % 64 ≡ 56
    → l + 8 < 2 ^ 64
    → t.len < 2 ^ 61
    → (finish t).hash ≡ (add_message (bytes64 (t.len * 8)) (record t { len = l })).hash
unfolding finish block_update store
finish-hash t l at small short =
    let bits : u64 (t.len << 3) ≡ t.len * 8 = omega arith in
    ap (λ (n : ℕ). compress t.hash (set_length t.mc n)) bits
    ∙ ap (λ (x : Sha1). x.hash)
        (sym (fill_block (bytes64 (t.len * 8)) (record t { len = l }) 56 at refl small))

abbrev finished : Option Sha1 → Option Sha1
finished none = none
finished (some t) = some (finish t)

end_message_lem :
    (f : Sha1)
    → f.len < 2 ^ 61
    → (t : Sha1) × (end_message f ≡ some t) × (t.hash ≡ (add_message (padding f.len) f).hash)
unfolding end_message add_message
end_message_lem f small =
    let k = zero_count f.len in
    let r : Sha1 = record f { mc = set_byte f.mc (bit_and f.len 0x3f) 0x80 } in
    let (t, runs, len, rest) =
      pad_loop_lem 64 k (f.len + 1) r (omega arith) (omega arith) (omega arith) in
    let start : u64 (f.len + 1) ≡ f.len + 1 = omega arith in
    (
      finish t,
      ap finished (ap (λ (c : ℕ). pad_loop 64 c r) start ∙ runs),
      rw (add_message-append (zero_bytes k) (bytes64 (f.len * 8)) (add_byte 0x80 f)) (
          finish-hash t (f.len + 1 + k) (omega arith) (omega arith) (omega (arith, len))
          ∙ ap (λ (n : ℕ). (add_message (bytes64 (n * 8)) (record t { len = f.len + 1 + k })).hash)
              len
          ∙ ap (λ (x : Sha1). (add_message (bytes64 (f.len * 8)) x).hash)
              (rest ∙ ap (add_message (zero_bytes k)) (settled-first f (omega arith)))),
    )

length-padding : (n : ℕ) → length (padding n) ≡ zero_count n + 9
length-padding n = omega (
  arith,
  length-append (zero_bytes (zero_count n)) (bytes64 (n * 8)),
  length-zero_bytes (zero_count n),
)

-- Full returns on messages of less than 2 ^ 61 bytes.
pub full-returns : (m : List ℕ) (s : Sha1) → length m < 2 ^ 61 → (t : Sha1) × (full m s ≡ some t)
unfolding full init
full-returns m s small =
    let len = add_message-len m (record s { hash = first_hash; len = 0 }) (omega arith) in
    let (t, runs, hash) = end_message_lem (add_message m (init s)) (omega (arith, len)) in (t, runs)

-- For a message of less than 2 ^ 61 bytes and a split of the message and its padding into blocks of
-- 64 bytes, Full returns, and the hash is the compression function applied to one block after the
-- other, from the initial hash.
pub full-absorb :
    (m : List ℕ) (blocks : List (List ℕ)) (s : Sha1)
    → length m < 2 ^ 61
    → All IsBlock blocks
    → concat blocks ≡ m ++ padding (length m)
    → (t : Sha1) × (full m s ≡ some t) × (t.hash ≡ absorb first_hash blocks)
unfolding full init
full-absorb m blocks s small whole split =
    let f = add_message m (init s) in
    let len : f.len ≡ length m =
      add_message-len m (record s { hash = first_hash; len = 0 }) (omega arith) ∙ omega arith in
    let (t, runs, hash) = end_message_lem f (omega (arith, len)) in
    let sum = length-append m (padding (length m)) in
    let fits : length (concat blocks) < 2 ^ 64 =
      omega (arith, ap length split, sum, length-padding (length m)) in
    (
      t,
      runs,
      hash
          ∙ ap (λ (n : ℕ). (add_message (padding n) f).hash) len
          ∙ ap (λ (x : Sha1). x.hash) (sym (add_message-append m (padding (length m)) (init s)))
          ∙ ap (λ (bs : List ℕ). (add_message bs (init s)).hash) (sym split)
          ∙ add_message-absorb blocks (init s) whole (omega arith) (omega (arith, fits)),
    )
