-- ===== src/Packet/Complete.antt =====
-- What `Packet::complete` leaves behind, as one equation, and when it leaves the buffer.
use net_port.Common.{
  none, ◌↔◌, dec_lt, ℕ, zero, suc, ◌+◌, ◌-◌, ◌%◌, ◌≤◌, ◌<◌, ◌≡◌, refl, [], ◌∷◌, some, arith, length,
  bytes32, word32, bit_and, bit_or, bit_and-low_mask,
}
use net_port.Buffer.{packet_size, Buffer, store, load, store?}
use net_port.Packet.{Packet, trailer, room, zero_bytes, advance, pad, closing_length, complete}

pub length-zero_bytes : (n : ℕ) → length (zero_bytes n) ≡ n
length-zero_bytes zero = refl
length-zero_bytes (suc n) = omega (arith, length-zero_bytes n)

-- The zero bytes up to the next multiple of four.
abbrev pub pad_count : ℕ → ℕ
pad_count mark = (4 - mark % 4) % 4

pad_lem :
    (fuel k : ℕ) (d : Buffer) (mark : ℕ)
    → k < fuel
    → k ≡ pad_count mark
    → mark ≤ packet_size
    → pad fuel d mark ≡ some (store d mark (zero_bytes k), mark + k)
unfolding pad store? store
pad_lem zero k d mark h e r = absurd (omega arith)
pad_lem (suc fuel) zero d mark h e r = ground (arith, bit_and-low_mask 2 mark)
pad_lem (suc fuel) (suc k) d mark h e r =
    ground (arith, bit_and-low_mask 2 mark, pad_lem fuel k (store d mark (0 ∷ [])) (mark + 1))

-- The first word of the message with its length filled in.
abbrev pub closed_flags : Packet → Buffer → ℕ
closed_flags p d = bit_or (bit_and (word32 (load d p.ch 4)) 0xffffe000) (closing_length p.mark p.ch)

-- Where the trailer goes.
abbrev pub trailer_at : ℕ → ℕ
trailer_at mark = mark + pad_count mark

abbrev pub closed_buffer : Packet → Buffer → Buffer
closed_buffer p d =
    store (store (store d p.ch (bytes32 (closed_flags p d))) p.mark (zero_bytes (pad_count p.mark)))
      (trailer_at p.mark) (bytes32 trailer)

abbrev pub closed : Packet → Buffer → Packet
closed p d = record (advance p (closed_buffer p d) (trailer_at p.mark + 4)) {
  ch = trailer_at p.mark + 4;
}

module _ (p : Packet) (d : Buffer) (here : p.ptr ≡ some d) where
  -- An open message that ends within the first 2044 bytes is padded, closed and stays in the
  -- buffer.
  pub complete_lem : p.ch < p.mark → p.mark ≤ room → complete p ≡ some (closed p d)
  unfolding complete
  complete_lem is_open fits =
      rw (here, complete)
        (ground
          (arith, pad_lem 4 (pad_count p.mark) (store d p.ch (bytes32 (closed_flags p d))) p.mark))

  complete_past : p.ch < p.mark → room < p.mark → p.mark ≤ packet_size → complete p ≡ none
  unfolding complete
  complete_past is_open full small =
      rw (here, complete)
        (ground
          (arith, pad_lem 4 (pad_count p.mark) (store d p.ch (bytes32 (closed_flags p d))) p.mark))

  pub complete_nothing : p.mark ≤ p.ch → complete p ≡ some p
  unfolding complete
  complete_nothing done = rw (here, complete) (ground arith)

  -- With the positions in the buffer, `complete` leaves it exactly when the open message ends in
  -- the last four bytes, where a read may stop but no write.
  pub complete-none_iff :
      p.mark ≤ packet_size → (complete p ≡ none) ↔ ((p.ch < p.mark) × (room < p.mark))
  complete-none_iff small = (faults, past)
    where
      faults : complete p ≡ none → (p.ch < p.mark) × (room < p.mark)
      faults e = elim (dec_lt p.ch p.mark) [
        | no done ↦ ground (arith, complete_nothing (omega arith))
        | yes is_open ↦ ground (arith, complete_lem is_open)
      ]

      past : (p.ch < p.mark) × (room < p.mark) → complete p ≡ none
      past (is_open, full) = complete_past is_open full small
