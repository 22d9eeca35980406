-- ===== src/Transfer/Handshake.antt =====
-- The exchange that opens a session, from `connect` through the two calls of `HandleRecv`.
use net_port.Transfer.Send.{send_ref_first}
use net_port.Transfer.Retry.{IsKept}
use net_port.Common.{
  ℕ, ◌+◌, ◌≤◌, ◌≡◌, ◌≢◌, ◌∙◌, refl, List, [], ◌∷◌, ◌++◌, some, arith, length, Bool, true, bytes32,
}
use net_port.Buffer.{Buffer, zeros, store}
use net_port.Packet.{Packet, Header, room, fetch32, insert, reset}
use net_port.Packet.Complete.{closed}
use net_port.Packet.Insert.{header_buffer, insert-append, insert_lem}
use net_port.Packet.Framing.{
  message, written, after_header, after_body, insert_header-message, insert-message,
  complete-message, closed_flags_lem,
}
use net_port.Udp.{Datagram, UdpSocket, Host, Wire, SendCall, send_to}
use net_port.Transfer.{
  Transfer, PacketRef, Received, connect, handle_request, request_header, reply_header, send,
  keep_sendable, keep_ref, send_ref, seqlocal, cseqlocal, packet_ref, is_null,
}

abbrev blank : Packet
blank = record { pksz = 0; mark = 0; ch = 0; ptr = some zeros }

abbrev finished : Header → List ℕ → Packet
finished h bs = closed (after_body h bs blank zeros refl) (written h bs zeros 0)

-- A message of one word on the wire.
abbrev pub datagram : Header → List ℕ → ℕ → Datagram
datagram h bs size = record { bytes = message h bs zeros 0; size = size }

-- The packet after complete() holds the message.
finished_ptr :
    (h : Header) (bs : List ℕ)
    → 12 + length bs ≤ room
    → (finished h bs).ptr ≡ some (message h bs zeros 0)
finished_ptr h bs fits = ground (arith, closed_flags_lem h bs blank zeros refl refl fits)

-- The second word of a body.
second_word :
    (h : Header) (a b : ℕ)
    → insert (bytes32 b) (record {
      pksz = 16;
      mark = 16;
      ch = 0;
      ptr = some (store (header_buffer h zeros 0) 12 (bytes32 a));
    })
      ≡ some (after_body h (bytes32 a ++ bytes32 b) blank zeros refl)
second_word h a b =
    insert-append (after_header h (bytes32 a ++ bytes32 b) blank zeros refl) _ (bytes32 a)
      (bytes32 b) refl (omega arith)
    ∙ insert-message h (bytes32 a ++ bytes32 b) blank zeros refl refl (omega arith)

abbrev pub call : UdpSocket → Transfer → Datagram → Bool → SendCall
call udp t dg ok = record { handle = udp.handle; to = t.remote; payload = dg; accepted = ok }

module _ (host : Host) (udp : UdpSocket) (t : Transfer) (opened : udp.handle ≢ 0)
    (linked : t.sys ≡ true) where
  send_ref-ptr : (r : PacketRef) (wire : Wire) → (send_ref host udp t r wire).ref.ptr ≡ r.ptr
  unfolding send_ref
  send_ref-ptr r wire = ground arith

  -- One transmission of a reference to a whole message.
  send_ref-wire :
      (r : PacketRef) (wire : Wire) (d : Buffer)
      → r.ptr ≡ some d
      → 1 ≤ r.pksz
      → (ok : Bool) × ((send_ref host udp t r wire).wire
          ≡ call udp t (record { bytes = d; size = r.pksz }) ok ∷ wire)
  unfolding send_ref send_to is_null
  send_ref-wire r wire d here full =
      (host wire udp.handle t.remote (record { bytes = d; size = r.pksz }), ground arith)

  -- `connect` keeps the request and puts it on the wire once.
  connect_steps :
      (wire : Wire)
      → connect host udp t wire ≡ (
          let s = keep_ref host udp t (finished (request_header t) (bytes32 t.lseqh)) wire in
          some (record { transfer = s.transfer; wire = s.wire }))
  unfolding connect send keep_sendable reset is_null
  connect_steps wire = rw (
    insert_header-message (request_header t) (bytes32 t.lseqh) blank zeros refl refl (omega arith),
    insert-message (request_header t) (bytes32 t.lseqh) blank zeros refl refl (omega arith),
    linked,
    complete-message (request_header t) (bytes32 t.lseqh) blank zeros refl refl (omega arith),
  )

  -- The answer to a request goes out once and is not kept.
  handle_request_steps :
      (mh : Header) (pem pem' : Packet) (rseqh : ℕ) (wire : Wire)
      → fetch32 pem ≡ some (rseqh, pem')
      → let t' = record t { rseq = mh.sequence; rseqh = rseqh } in
        handle_request host udp t mh pem wire
        ≡ some (record {
          transfer = t';
          wire =
              (send_ref host udp t'
                (packet_ref
                  (finished (reply_header t mh) (bytes32 t.lsess ++ bytes32 t.lseqh))
                  (cseqlocal t'))
                wire).wire;
        })
  unfolding handle_request reset
  handle_request_steps mh pem pem' rseqh wire e =
      let h = reply_header t mh in
      let words = bytes32 t.lsess ++ bytes32 t.lseqh in
      let first = after_header h words blank zeros refl in
      rw (
        e,
        insert_header-message h words blank zeros refl refl (omega arith),
        insert_lem first _ refl (bytes32 t.lsess) (omega arith),
        second_word h t.lsess t.lseqh,
        complete-message h words blank zeros refl refl (omega arith),
      )

-- What `connect` does: the request is the last of the list and the first call made.
pub record Asked (udp : UdpSocket) (t : Transfer) (wire : Wire) (r : Received) : Type 0 where
  pub accepted : Bool
  pub last : PacketRef
  pub sends : r.wire ≡ call udp t (datagram (request_header t) (bytes32 t.lseqh) 20) accepted ∷ wire
  pub keeps : r.transfer ≡ record ((seqlocal t).1) { rt = t.rt ++ last ∷ [] }
  pub holds : last.ptr ≡ some (message (request_header t) (bytes32 t.lseqh) zeros 0)
  pub kept : IsKept last

module _ (host : Host) (udp : UdpSocket) (t : Transfer) (opened : udp.handle ≢ 0)
    (linked : t.sys ≡ true) where
  pub connect-Asked :
      (wire : Wire) → (r : Received) × (connect host udp t wire ≡ some r) × Asked udp t wire r
  unfolding keep_ref seqlocal
  connect-Asked wire =
      let q = finished (request_header t) (bytes32 t.lseqh) in
      let ref = packet_ref q (cseqlocal t) in
      let d = message (request_header t) (bytes32 t.lseqh) zeros 0 in
      let here = finished_ptr (request_header t) (bytes32 t.lseqh) (omega arith) in
      let s = keep_ref host udp t q wire in
      let out = send_ref-wire host udp (seqlocal t).1 opened linked ref wire d here (omega arith) in
      (
        record { transfer = s.transfer; wire = s.wire },
        connect_steps host udp t opened linked wire,
        record {
          accepted = out.0;
          last = (send_ref host udp (seqlocal t).1 ref wire).ref;
          sends = out.1;
          keeps = refl;
          holds = send_ref-ptr host udp (seqlocal t).1 opened linked ref wire ∙ here;
          kept =
              (send_ref_first host udp (seqlocal t).1 linked ref wire refl (unfold is_null in refl)
                (omega arith) (omega arith)).4;
        },
      )

  -- The answer to a request names the session and the counter, and goes out once.
  pub answer-sends :
      (mh : Header) (pem pem' : Packet) (rseqh : ℕ) (wire : Wire)
      → fetch32 pem ≡ some (rseqh, pem')
      → (r : Received) × (ok : Bool) × (handle_request host udp t mh pem wire ≡ some r)
        × (r.transfer ≡ record t { rseq = mh.sequence; rseqh = rseqh })
        × (r.wire
            ≡ call udp t (datagram (reply_header t mh) (bytes32 t.lsess ++ bytes32 t.lseqh) 24) ok
              ∷ wire)
  answer-sends mh pem pem' rseqh wire e =
      let t' : Transfer = record t { rseq = mh.sequence; rseqh = rseqh } in
      let h = reply_header t mh in
      let words = bytes32 t.lsess ++ bytes32 t.lseqh in
      let ref = packet_ref (finished h words) (cseqlocal t') in
      let out =
        send_ref-wire host udp t' opened linked ref wire (message h words zeros 0)
          (finished_ptr h words (omega arith)) (omega arith) in
      (
        record { transfer = t'; wire = (send_ref host udp t' ref wire).wire },
        out.0,
        handle_request_steps host udp t opened linked mh pem pem' rseqh wire e,
        refl,
        out.1,
      )
