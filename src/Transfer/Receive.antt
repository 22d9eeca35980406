-- ===== src/Transfer/Receive.antt =====
-- Reading a message out of a datagram that arrived whole.
use net_port.Common.{
  ℕ, ◌+◌, ◌^◌, ◌≤◌, ◌<◌, ◌≡◌, ◌∙◌, ◌++◌, some, arith, ltb, if◌then◌else◌, bytes32, word32-bytes32,
}
use net_port.Buffer.{Buffer, packet_size, zeros, load, load_ext}
use net_port.Packet.{Packet, Header, header_size, fetch, fetch_header, fetch32}
use net_port.Packet.Insert.{header_at, fetch_lem, fetch_header_lem}
use net_port.Packet.Message.{trimmed}
use net_port.Packet.Framing.{
  message, message_end, header_at-message, load-message_body, load-message_front, load-message_back,
}
use net_port.Udp.{Datagram}
use net_port.Transfer.{received}

-- The received packet at a read position.
abbrev pub at_mark : Datagram → ℕ → Packet
at_mark dg mark = record (received dg) { mark = mark }

abbrev copied : Datagram → Buffer
copied dg = λ i. if ltb i dg.size then dg.bytes i else 0

module _ (dg : Datagram) (fits : dg.size ≤ packet_size) where
  received_ptr : (received dg).ptr ≡ some (copied dg)
  unfolding received
  received_ptr = ground arith

  received_size : (received dg).pksz ≡ dg.size
  unfolding received
  received_size = ground arith

  load-copied : (j n : ℕ) → j + n ≤ dg.size → load (copied dg) j n ≡ load dg.bytes j n
  load-copied j n within = load_ext (copied dg) dg.bytes j n (λ k p q. ground arith)

  pub fetch-received :
      (j n : ℕ)
      → j + n ≤ dg.size
      → fetch n (at_mark dg j) ≡ some (load dg.bytes j n, at_mark dg (j + n))
  fetch-received j n within =
      fetch_lem (at_mark dg j) (copied dg) received_ptr n (omega (arith, received_size))
        (omega (arith, received_size))
      ∙ rw (load-copied j n within)

  pub fetch_header-received :
      header_size ≤ dg.size
      → fetch_header (received dg) ≡ some (header_at dg.bytes 0, at_mark dg header_size)
  unfolding received
  fetch_header-received within =
      fetch_header_lem (received dg) (copied dg) received_ptr (omega (arith, received_size))
        (omega (arith, received_size))
      ∙ rw (
        load-copied 0 4 (omega arith),
        load-copied 4 4 (omega arith),
        load-copied 8 4 (omega arith),
      )

-- A whole message in a datagram: its header, and a body of two words.
module _ (dg : Datagram) (h : Header) (a b : ℕ) (fits : dg.size ≤ packet_size)
    (bytes : dg.bytes ≡ message h (bytes32 a ++ bytes32 b) zeros 0)
    (whole : message_end (bytes32 a ++ bytes32 b) 0 ≤ dg.size) (s : h.session < 2 ^ 32)
    (q : h.sequence < 2 ^ 32) (ha : a < 2 ^ 32) (hb : b < 2 ^ 32) where
  pub header-two_words :
      fetch_header (received dg) ≡ some (record (trimmed h) { len = 8 }, at_mark dg header_size)
  header-two_words =
      fetch_header-received dg fits (omega arith)
      ∙ rw (bytes, header_at-message h (bytes32 a ++ bytes32 b) zeros 0 (omega arith) s q)

  pub first-two_words : fetch32 (at_mark dg header_size) ≡ some (a, at_mark dg 16)
  first-two_words = rw (
    fetch-received dg fits header_size 4 (omega arith),
    bytes,
    load-message_front h (bytes32 a) (bytes32 b) zeros 0,
    word32-bytes32 a ha,
  )

  pub second-two_words : fetch32 (at_mark dg 16) ≡ some (b, at_mark dg 20)
  second-two_words = rw (
    fetch-received dg fits 16 4 (omega arith),
    bytes,
    load-message_back h (bytes32 a) (bytes32 b) zeros 0,
    word32-bytes32 b hb,
  )

-- The same with a body of one word.
module _ (dg : Datagram) (h : Header) (a : ℕ) (fits : dg.size ≤ packet_size)
    (bytes : dg.bytes ≡ message h (bytes32 a) zeros 0) (whole : message_end (bytes32 a) 0 ≤ dg.size)
    (s : h.session < 2 ^ 32) (q : h.sequence < 2 ^ 32) (ha : a < 2 ^ 32) where
  pub header-one_word :
      fetch_header (received dg) ≡ some (record (trimmed h) { len = 4 }, at_mark dg header_size)
  header-one_word =
      fetch_header-received dg fits (omega arith)
      ∙ rw (bytes, header_at-message h (bytes32 a) zeros 0 (omega arith) s q)

  pub only-one_word : fetch32 (at_mark dg header_size) ≡ some (a, at_mark dg 16)
  only-one_word = rw (
    fetch-received dg fits header_size 4 (omega arith),
    bytes,
    load-message_body h (bytes32 a) zeros 0 (omega arith),
    word32-bytes32 a ha,
  )
