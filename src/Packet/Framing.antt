-- ===== src/Packet/Framing.antt =====
-- The bytes of one whole message, header, body, padding and trailer, and reading it back.
use net_port.Buffer.{
  load-store_front, load-store_back, Buffer, packet_size, store, load, load-store_same,
  load-store_apart,
}
use net_port.Common.{
  length-append, ◌++◌, ℕ, ◌+◌, ◌-◌, ◌^◌, ◌%◌, ◌≤◌, ◌<◌, ◌≡◌, ◌∙◌, refl, List, Option, some, arith,
  length, ◌>>=◌, bytes32, word32-bytes32,
}
use net_port.Packet.Message.{
  pack_flags_lem, trimmed, unpack_header-pack_flags, closed_word, closing_length_lem,
}
use net_port.Packet.{
  Packet, Header, room, header_size, advance, complete, insert, insert_header, pack_flags, fetch,
  fetch_header, trailer, zero_bytes,
}
use net_port.Packet.Complete.{complete_lem, closed, closed_flags, trailer_at, pad_count}
use net_port.Packet.Insert.{
  insert_lem, place_header_lem, insert_header_closed, header_buffer, header_at, fetch_lem,
  fetch_header_lem,
}

module _ (h : Header) (bs : List ℕ) (d : Buffer) (i : ℕ) where
  abbrev pub body_end : ℕ
  body_end = i + header_size + length bs

  -- The buffer with the header and the body, not closed yet.
  abbrev pub written : Buffer
  written = store (header_buffer h d i) (i + header_size) bs

  -- The buffer with the message closed.
  abbrev pub framed : ℕ → Buffer
  framed word =
      store (store (store written i (bytes32 word)) body_end (zero_bytes (pad_count body_end)))
        (trailer_at body_end) (bytes32 trailer)

  load-written_flags : load written i 4 ≡ bytes32 (pack_flags h)
  load-written_flags = ground (
    arith,
    load-store_apart (header_buffer h d i) (i + header_size) bs i 4,
    load-store_apart (store (store d i (bytes32 (pack_flags h))) (i + 4) (bytes32 h.session))
        (i + 8) (bytes32 h.sequence) i 4,
    load-store_apart (store d i (bytes32 (pack_flags h))) (i + 4) (bytes32 h.session) i 4,
    load-store_same d i (bytes32 (pack_flags h)) 4,
  )

  load-written_session : load written (i + 4) 4 ≡ bytes32 h.session
  load-written_session = ground (
    arith,
    load-store_apart (header_buffer h d i) (i + header_size) bs (i + 4) 4,
    load-store_apart (store (store d i (bytes32 (pack_flags h))) (i + 4) (bytes32 h.session))
        (i + 8) (bytes32 h.sequence) (i + 4) 4,
    load-store_same (store d i (bytes32 (pack_flags h))) (i + 4) (bytes32 h.session) 4,
  )

  load-written_sequence : load written (i + 8) 4 ≡ bytes32 h.sequence
  load-written_sequence = ground (
    arith,
    load-store_apart (header_buffer h d i) (i + header_size) bs (i + 8) 4,
    load-store_same (store (store d i (bytes32 (pack_flags h))) (i + 4) (bytes32 h.session)) (i + 8)
        (bytes32 h.sequence) 4,
  )

  module _ (word : ℕ) where
    load-framed :
        (j n : ℕ) → i + 4 ≤ j → j + n ≤ body_end → load (framed word) j n ≡ load written j n
    load-framed j n above below = ground (
      arith,
      load-store_apart written i (bytes32 word) j n,
      load-store_apart (store written i (bytes32 word)) body_end (zero_bytes (pad_count body_end)) j
          n,
      load-store_apart
          (store (store written i (bytes32 word)) body_end (zero_bytes (pad_count body_end)))
          (trailer_at body_end) (bytes32 trailer) j n,
    )

    load-framed_flags : load (framed word) i 4 ≡ bytes32 word
    load-framed_flags = ground (
      arith,
      load-store_same written i (bytes32 word) 4,
      load-store_apart (store written i (bytes32 word)) body_end (zero_bytes (pad_count body_end)) i
          4,
      load-store_apart
          (store (store written i (bytes32 word)) body_end (zero_bytes (pad_count body_end)))
          (trailer_at body_end) (bytes32 trailer) i 4,
    )

    load-framed_body : load (framed word) (i + header_size) (length bs) ≡ bs
    load-framed_body =
        load-framed (i + header_size) (length bs) (omega arith) (omega arith)
        ∙ load-store_same (header_buffer h d i) (i + header_size) bs (length bs) refl

-- The first word once the length is known.
abbrev pub closed_header : Header → List ℕ → Header
closed_header h bs = record h { len = length bs }

-- The buffer of a finished message.
abbrev pub message : Header → List ℕ → Buffer → ℕ → Buffer
message h bs d i = framed h bs d i (pack_flags (closed_header h bs))

abbrev pub message_end : List ℕ → ℕ → ℕ
message_end bs i = trailer_at (i + header_size + length bs) + 4

-- Header, body and `complete` in a row.
unfoldable pub send_message : Header → List ℕ → Packet → Option Packet
send_message h bs p = do q ← insert_header h p; r ← insert bs q; complete r

module _ (h : Header) (bs : List ℕ) (p : Packet) (d : Buffer) (here : p.ptr ≡ some d) where
  abbrev pub after_header : Packet
  after_header = advance p (header_buffer h d p.mark) (p.mark + header_size)

  abbrev pub after_body : Packet
  after_body = advance after_header (written h bs d p.mark) (p.mark + header_size + length bs)

  module _ (start : p.mark ≡ p.ch) (fits : p.mark + header_size + length bs ≤ room) where
    pub insert_header-message : insert_header h p ≡ some after_header
    insert_header-message =
        rw (insert_header_closed p d here h (omega arith))
          (place_header_lem p d here h (omega arith))

    pub insert-message : insert bs after_header ≡ some after_body
    insert-message = insert_lem after_header (header_buffer h d p.mark) refl bs (omega arith)

    pub complete-message : complete after_body ≡ some (closed after_body (written h bs d p.mark))
    complete-message =
        complete_lem after_body (written h bs d p.mark) refl (omega arith) (omega arith)

    send_message_steps : send_message h bs p ≡ some (closed after_body (written h bs d p.mark))
    unfolding send_message
    send_message_steps = rw (insert_header-message, insert-message) complete-message

    pub closed_flags_lem :
        closed_flags after_body (written h bs d p.mark) ≡ pack_flags (closed_header h bs)
    closed_flags_lem = ground (
      arith,
      load-written_flags h bs d p.mark,
      pack_flags_lem h,
      word32-bytes32 (pack_flags h),
      closing_length_lem p.mark (length bs),
      closed_word h (length bs),
    )

    -- The packet after the message: closed, and grown up to the trailer's end.
    pub send_message_lem :
        p.pksz ≤ packet_size
        → (q : Packet) × (send_message h bs p ≡ some q)
          × (q.ptr ≡ some (message h bs d p.mark))
          × (q.mark ≡ message_end bs p.mark)
          × (q.ch ≡ message_end bs p.mark)
          × (message_end bs p.mark ≤ q.pksz)
          × (q.pksz ≤ packet_size)
    send_message_lem size = (
      closed after_body (written h bs d p.mark),
      send_message_steps,
      ground (arith, closed_flags_lem),
      refl,
      refl,
      ground arith,
      ground arith,
    )

-- What a reader finds at the start of a finished message.
module _ (h : Header) (bs : List ℕ) (d : Buffer) (i : ℕ) (small : length bs ≤ room) where
  pub header_at-message :
      h.session < 2 ^ 32
      → h.sequence < 2 ^ 32
      → header_at (message h bs d i) i ≡ trimmed (closed_header h bs)
  header_at-message s q = ground (
    arith,
    load-framed_flags h bs d i (pack_flags (closed_header h bs)),
    load-framed h bs d i (pack_flags (closed_header h bs)) (i + 4) 4,
    load-framed h bs d i (pack_flags (closed_header h bs)) (i + 8) 4,
    load-written_session h bs d i,
    load-written_sequence h bs d i,
    pack_flags_lem (closed_header h bs),
    word32-bytes32 (pack_flags (closed_header h bs)),
    word32-bytes32 h.session,
    word32-bytes32 h.sequence,
    unpack_header-pack_flags (closed_header h bs),
  )

  pub load-message_body : load (message h bs d i) (i + header_size) (length bs) ≡ bs
  load-message_body = load-framed_body h bs d i (pack_flags (closed_header h bs))

  pub load-message_trailer :
      load (message h bs d i) (trailer_at (i + header_size + length bs)) 4 ≡ bytes32 trailer
  load-message_trailer = load-store_same _ _ (bytes32 trailer) 4 refl

-- Reading a finished message from its start gives the header with the body's length, then the body,
-- and the position after it.
pub fetch-message :
    (h : Header) (bs : List ℕ) (d : Buffer) (q : Packet)
    → h.session < 2 ^ 32
    → h.sequence < 2 ^ 32
    → q.ptr ≡ some (message h bs d q.mark)
    → message_end bs q.mark ≤ q.pksz
    → q.pksz ≤ packet_size
    → let r = record q { mark = q.mark + header_size } in
      (fetch_header q ≡ some (record (trimmed h) { len = length bs }, r))
      × (fetch (length bs) r ≡ some (bs, record q { mark = q.mark + header_size + length bs }))
fetch-message h bs d q s n here fits size = (
  rw
      (
        fetch_header_lem q _ here (omega arith) size,
        header_at-message h bs d q.mark (omega arith) s n,
      )
      (ground arith),
  rw
      (
        fetch_lem (record q { mark = q.mark + header_size }) _ here (length bs) (omega arith) size,
        load-message_body h bs d q.mark (omega arith),
      )
      refl,
)

-- The two parts of a body that was written in one go.
module _ (h : Header) (bs cs : List ℕ) (d : Buffer) (i : ℕ) where
  pub load-message_front : load (message h (bs ++ cs) d i) (i + header_size) (length bs) ≡ bs
  load-message_front =
      load-framed h (bs ++ cs) d i _ (i + header_size) (length bs) (omega arith)
        (omega (arith, length-append bs cs))
      ∙ load-store_front (header_buffer h d i) (i + header_size) bs cs (length bs) refl

  pub load-message_back :
      load (message h (bs ++ cs) d i) (i + header_size + length bs) (length cs) ≡ cs
  load-message_back =
      load-framed h (bs ++ cs) d i _ (i + header_size + length bs) (length cs) (omega arith)
        (omega (arith, length-append bs cs))
      ∙ load-store_back (header_buffer h d i) (i + header_size) bs cs _ (length cs) refl refl

pub load-message_flags :
    (h : Header) (bs : List ℕ) (d : Buffer) (i : ℕ)
    → load (message h bs d i) i 4 ≡ bytes32 (pack_flags (closed_header h bs))
load-message_flags h bs d i = load-framed_flags h bs d i (pack_flags (closed_header h bs))

-- A message of a header and a body that fit into a closed packet is written without a fault and
-- read back from where it starts: the header with its fields cut to their widths and the body's
-- length filled in, then the body; behind its padding, at a multiple of four, stands the trailer.
pub send_message-fetch :
    (h : Header) (bs : List ℕ) (p : Packet) (d : Buffer)
    → p.ptr ≡ some d
    → p.mark ≡ p.ch
    → p.mark + header_size + length bs ≤ room
    → p.pksz ≤ packet_size
    → h.session < 2 ^ 32
    → h.sequence < 2 ^ 32
    → (q : Packet) × (e : Buffer) × (send_message h bs p ≡ some q)
      × (q.ptr ≡ some e)
      × (fetch_header (record q { mark = p.mark })
          ≡ some (record (trimmed h) { len = length bs }, record q { mark = p.mark + header_size }))
      × (fetch (length bs) (record q { mark = p.mark + header_size })
          ≡ some (bs, record q { mark = p.mark + header_size + length bs }))
      × (q.mark % 4 ≡ 0)
      × (load e (q.mark - 4) 4 ≡ bytes32 trailer)
send_message-fetch h bs p d here start fits size s n =
    let (q, sends, holds, at, closed_at, grown, small) =
      send_message_lem h bs p d here start fits size in
    let reads = fetch-message h bs d (record q { mark = p.mark }) s n holds grown small in
    let e : q.mark - 4 ≡ trailer_at (p.mark + header_size + length bs) = omega (arith, at) in
    (
      q,
      message h bs d p.mark,
      sends,
      holds,
      reads.0,
      reads.1,
      omega (arith, at),
      rw e (load-message_trailer h bs d p.mark (omega arith)),
    )
