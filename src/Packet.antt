-- ===== src/Packet.antt =====
-- `struct Packet` of include/net/MEISocket.hpp and the three functions of src/MEISocket.cpp that
-- frame messages in it: a write and read position over a buffer of 2048 bytes. `none` is an access
-- outside the buffer.
pub mod Complete
pub mod Insert
pub mod Bounds
pub mod Message
pub mod Framing
mod Tests
use net_port.Common.{
  ℕ, zero, suc, ◌+◌, ◌-◌, ◌^◌, ◌%◌, ◌≤◌, ◌<◌, ◌≡◌, List, [], ◌∷◌, Option, none, some, Bool, true,
  false, ltb, leb, ◌==◌, if◌then◌else◌, ◌>>=◌, length, u16, u32, u64, ◌<<◌, ◌>>◌, bytes32, word32,
  bit_and, bit_or,
}
use net_port.Buffer.{Buffer, packet_size, zeros, set_byte, store, load, store?, load?}

-- `PacketParsedHeader`
pub record Header : Type 0 where
  pub len : ℕ
  pub flags : ℕ
  pub code : ℕ
  pub session : ℕ
  pub sequence : ℕ

pub record Packet : Type 0 where
  pub pksz : ℕ
  pub mark : ℕ
  pub ch : ℕ
  pub ptr : Option Buffer

-- sizeof(PacketHeader)
abbrev pub header_size : ℕ
header_size = 12

-- The four bytes kept free for the trailer of a message.
abbrev pub room : ℕ
room = 2044

abbrev pub trailer : ℕ
trailer = 0xff8859ea

abbrev pub empty_packet : Packet
empty_packet = record { pksz = 0; mark = 0; ch = 0; ptr = none }

unfoldable pub alloc : Packet → Packet
alloc p = elim p.ptr [ none ↦ record p { ptr = some zeros } | some d ↦ p ]

unfoldable pub reset : Packet → Packet
reset p = record { pksz = 0; mark = 0; ch = 0; ptr = some zeros }

unfoldable pub rewind : Packet → Packet
rewind p = record p { mark = 0; ch = 0 }

-- The position moves to `nx`, and the packet grows with it.
abbrev pub advance : Packet → Buffer → ℕ → Packet
advance p d nx = record p { ptr = some d; mark = nx; pksz = if ltb p.pksz nx then nx else p.pksz }

-- insert<T>, for a value given by its object representation.
unfoldable pub insert : List ℕ → Packet → Option Packet
unfolding store?
insert bs p = elim p.ptr [
  | none ↦ some p
  | some d ↦
      let nx = u32 (p.mark + length bs) in
      if ltb room nx then some p else do d' ← store? d p.mark bs; some (advance p d' nx)
]

-- fetch<T>, for a type of `n` bytes; the result 0 has zero bytes.
abbrev pub zero_bytes : ℕ → List ℕ
zero_bytes zero = []
zero_bytes (suc n) = 0 ∷ zero_bytes n

unfoldable pub fetch : ℕ → Packet → Option (List ℕ × Packet)
unfolding load?
fetch n p = elim p.ptr [
  | none ↦ some (zero_bytes n, p)
  | some d ↦
      let nx = u32 (p.mark + n) in
      if ltb p.pksz nx
      then some (zero_bytes n, p)
      else (do bs ← load? d p.mark n; some (bs, record p { mark = nx }))
]

-- while(mark & 0x3) { ptr->data[mark++] = 0; }
pub pad : ℕ → Buffer → ℕ → Option (Buffer × ℕ)
unfolding store?
pad zero d mark = none
pad (suc fuel) d mark = elim (bit_and mark 3 == 0) [
  | true ↦ some (d, mark)
  | false ↦ (do d' ← store? d mark (0 ∷ []); pad fuel d' (u32 (mark + 1)))
]

-- The length field of the message that is closed, cut to 13 bits.
unfoldable pub closing_length : ℕ → ℕ → ℕ
closing_length mark ch =
    let cl = u32 (u64 (mark + 2 ^ 64 - (ch + header_size))) in if ltb 0x1fff cl then 0x1fff else cl

unfoldable pub complete : Packet → Option Packet
unfolding store? load? pad closing_length
complete p = elim p.ptr [
  | none ↦ some p
  | some d ↦ if leb p.mark p.ch then some p else (do
    old ← load? d p.ch 4
    let pflags = bit_or (bit_and (word32 old) 0xffffe000) (closing_length p.mark p.ch)
    d₁ ← store? d p.ch (bytes32 pflags)
    (d₂, mark) ← pad 4 d₁ p.mark
    d₃ ← store? d₂ mark (bytes32 trailer)
    let nx = u32 (mark + 4)
    some (record (advance p d₃ nx) { ch = nx }))
]

unfoldable pub pack_flags : Header → ℕ
pack_flags h =
    bit_or (bit_or (bit_and h.code 0xfff << 20) (bit_and h.flags 0x7f << 13)) (bit_and h.len 0x1fff)

-- insert<PacketParsedHeader>: closes the message before, then writes a header.
pub place_header : Header → Packet → Option Packet
unfolding store? pack_flags
place_header h p = elim p.ptr [
  | none ↦ some p
  | some d ↦
      let nx = u32 (p.mark + header_size) in
      if ltb room nx then some p else (do
        d₁ ← store? d p.mark (bytes32 (pack_flags h))
        d₂ ← store? d₁ (p.mark + 4) (bytes32 h.session)
        d₃ ← store? d₂ (p.mark + 8) (bytes32 h.sequence)
        some (advance p d₃ nx))
]

unfoldable pub insert_header : Header → Packet → Option Packet
unfolding place_header complete
insert_header h p = elim p.ptr [
  | none ↦ some p
  | some d ↦ if ltb p.ch p.mark then complete p >>= place_header h else place_header h p
]

abbrev pub zero_header : Header
zero_header = record { len = 0; flags = 0; code = 0; session = 0; sequence = 0 }

unfoldable pub unpack_header : ℕ → ℕ → ℕ → Header
unpack_header pflags session sequence = record {
  len = bit_and pflags 0x1fff;
  flags = u16 (bit_and (pflags >> 13) 0x7f);
  code = u16 (bit_and (pflags >> 20) 0xfff);
  session = session;
  sequence = sequence;
}

-- fetch<PacketParsedHeader>
unfoldable pub fetch_header : Packet → Option (Header × Packet)
unfolding load? unpack_header
fetch_header p = elim p.ptr [
  | none ↦ some (zero_header, p)
  | some d ↦
      let nx = u32 (p.mark + header_size) in
      if ltb p.pksz nx then some (zero_header, p) else (do
        pflags ← load? d p.mark 4
        session ← load? d (p.mark + 4) 4
        sequence ← load? d (p.mark + 8) 4
        some (
          unpack_header (word32 pflags) (word32 session) (word32 sequence),
          record p { mark = nx },
        ))
]

-- insert<uint32_t> and fetch<uint32_t>
abbrev pub insert32 : ℕ → Packet → Option Packet
insert32 v = insert (bytes32 v)

abbrev pub fetch32 : Packet → Option (ℕ × Packet)
fetch32 p = do (bs, q) ← fetch 4 p; some (word32 bs, q)
