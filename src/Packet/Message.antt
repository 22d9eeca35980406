-- ===== src/Packet/Message.antt =====
-- The framing of MEIP: a message that is written as a header, a body and `complete` is read back
-- field by field. The packed word is described as a sum.
use net_port.Common.{
  ℕ, ◌+◌, ◌-◌, ◌*◌, ◌^◌, ◌%◌, ◌/◌, ◌≤◌, ◌<◌, ◌≡◌, arith, bit_and-low_mask, bit_and-high_mask,
  bit_or-fields, bit_and, bit_or,
}
use net_port.Packet.{Header, room, header_size, pack_flags, unpack_header, closing_length}

-- What the bit fields of the header keep.
abbrev pub trimmed : Header → Header
trimmed h = record h { len = h.len % 2 ^ 13; flags = h.flags % 2 ^ 7; code = h.code % 2 ^ 12 }

-- The packed word is the sum of its three fields, each cut to its width.
pub pack_flags_lem :
    (h : Header)
    → pack_flags h ≡ h.code % 2 ^ 12 * 2 ^ 20 + h.flags % 2 ^ 7 * 2 ^ 13 + h.len % 2 ^ 13
unfolding pack_flags
pack_flags_lem h = ground (
  arith,
  bit_and-low_mask 12 h.code,
  bit_and-low_mask 7 h.flags,
  bit_and-low_mask 13 h.len,
  bit_or-fields 20 (h.code % 2 ^ 12) (h.flags % 2 ^ 7 * 2 ^ 13),
  bit_or-fields 13 (h.code % 2 ^ 12 * 2 ^ 7 + h.flags % 2 ^ 7) (h.len % 2 ^ 13),
)

pub unpack_header-pack_flags :
    (h : Header) → unpack_header (pack_flags h) h.session h.sequence ≡ trimmed h
unfolding unpack_header
unpack_header-pack_flags h = ground (
  arith,
  pack_flags_lem h,
  bit_and-low_mask 13 (pack_flags h),
  bit_and-low_mask 7 (pack_flags h / 2 ^ 13),
  bit_and-low_mask 12 (pack_flags h / 2 ^ 20),
)

-- `complete` puts `n` in place of the length and keeps the other fields.
pub closed_word :
    (h : Header) (n : ℕ)
    → n < 2 ^ 13
    → bit_or (bit_and (pack_flags h) 0xffffe000) n ≡ pack_flags (record h { len = n })
closed_word h n small =
    let q = h.code % 2 ^ 12 * 2 ^ 7 + h.flags % 2 ^ 7 in
    ground (
      arith,
      pack_flags_lem h,
      pack_flags_lem (record h { len = n }),
      bit_and-high_mask 13 q (h.len % 2 ^ 13) (2 ^ 19 - 1),
      bit_and-low_mask 19 q,
      bit_or-fields 13 q n,
    )

pub closing_length_lem :
    (ch n : ℕ) → ch + header_size + n ≤ room → closing_length (ch + header_size + n) ch ≡ n
unfolding closing_length
closing_length_lem ch n fits = ground arith
