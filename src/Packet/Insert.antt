-- ===== src/Packet/Insert.antt =====
-- One equation for each way through the `insert` and `fetch` templates of `Packet`.
use net_port.Buffer.{store-append, Buffer, packet_size, store, load}
use net_port.Common.{
  refl, length-append, ◌++◌, ℕ, ◌+◌, ◌^◌, ◌≤◌, ◌<◌, ◌≡◌, List, some, arith, length, bytes32, word32,
  ◌>>=◌,
}
use net_port.Packet.{
  Packet, Header, room, header_size, advance, complete, insert, place_header, insert_header,
  pack_flags, unpack_header, fetch, fetch_header, zero_bytes, zero_header,
}

-- The three words of a header.
abbrev pub header_buffer : Header → Buffer → ℕ → Buffer
header_buffer h d i =
    store (store (store d i (bytes32 (pack_flags h))) (i + 4) (bytes32 h.session)) (i + 8)
      (bytes32 h.sequence)

abbrev pub header_at : Buffer → ℕ → Header
header_at d i =
    unpack_header (word32 (load d i 4)) (word32 (load d (i + 4) 4)) (word32 (load d (i + 8) 4))

module _ (p : Packet) (d : Buffer) (here : p.ptr ≡ some d) where
  pub insert_lem :
      (bs : List ℕ)
      → p.mark + length bs ≤ room
      → insert bs p ≡ some (advance p (store d p.mark bs) (p.mark + length bs))
  unfolding insert
  insert_lem bs fits = rw (here, insert) (ground arith)

  pub insert_full :
      (bs : List ℕ) → p.mark + length bs < 2 ^ 32 → room < p.mark + length bs → insert bs p ≡ some p
  unfolding insert
  insert_full bs small full = rw (here, insert) (ground arith)

  pub place_header_lem :
      (h : Header)
      → p.mark + header_size ≤ room
      → place_header h p ≡ some (advance p (header_buffer h d p.mark) (p.mark + header_size))
  unfolding place_header
  place_header_lem h fits = rw (here, place_header) (ground arith)

  pub place_header_full :
      (h : Header) → p.mark ≤ packet_size → room < p.mark + header_size → place_header h p ≡ some p
  unfolding place_header
  place_header_full h small full = rw (here, place_header) (ground arith)

  pub insert_header_closed : (h : Header) → p.mark ≤ p.ch → insert_header h p ≡ place_header h p
  unfolding insert_header
  insert_header_closed h done = rw (here, insert_header) (ground arith)

  pub insert_header_open :
      (h : Header) → p.ch < p.mark → insert_header h p ≡ (complete p >>= place_header h)
  unfolding insert_header
  insert_header_open h is_open = rw (here, insert_header) (ground arith)

  pub fetch_lem :
      (n : ℕ)
      → p.mark + n ≤ p.pksz
      → p.pksz ≤ packet_size
      → fetch n p ≡ some (load d p.mark n, record p { mark = p.mark + n })
  unfolding fetch
  fetch_lem n fits size = rw (here, fetch) (ground arith)

  pub fetch_end :
      (n : ℕ) → p.mark + n < 2 ^ 32 → p.pksz < p.mark + n → fetch n p ≡ some (zero_bytes n, p)
  unfolding fetch
  fetch_end n small past = rw (here, fetch) (ground arith)

  pub fetch_header_lem :
      p.mark + header_size ≤ p.pksz
      → p.pksz ≤ packet_size
      → fetch_header p ≡ some (header_at d p.mark, record p { mark = p.mark + header_size })
  unfolding fetch_header
  fetch_header_lem fits size = rw (here, fetch_header) (ground arith)

  pub fetch_header_end :
      p.mark ≤ packet_size → p.pksz < p.mark + header_size → fetch_header p ≡ some (zero_header, p)
  unfolding fetch_header
  fetch_header_end small past = rw (here, fetch_header) (ground arith)

-- A value behind another one that fits: as if both were inserted as one.
pub insert-append :
    (p : Packet) (d : Buffer) (bs cs : List ℕ)
    → p.ptr ≡ some d
    → p.mark + length bs + length cs ≤ room
    → insert cs (advance p (store d p.mark bs) (p.mark + length bs)) ≡ insert (bs ++ cs) p
insert-append p d bs cs here fits =
    rw
      (
        insert_lem (advance p (store d p.mark bs) (p.mark + length bs)) _ refl cs (omega arith),
        insert_lem p d here (bs ++ cs) (omega (arith, length-append bs cs)),
        store-append d p.mark bs cs,
        length-append bs cs,
      )
      (ground arith)
