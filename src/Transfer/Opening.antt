-- ===== src/Transfer/Opening.antt =====
-- The whole exchange that opens a session between two ends, each with a system of its own.
use net_port.Common.{
  ℕ, if-cases, ap, inl, inr, Option-cases, ◌^◌, ◌<◌, ◌≡◌, ◌≢◌, ◌∙◌, refl, List, [], ◌∷◌, ◌++◌, some,
  arith, Bool, true, if◌then◌else◌, bytes32, All,
}
use net_port.Transfer.{
  seqlocal, Transfer, PacketRef, Received, received, connect, handle_recv, handle_control,
  handle_reply, request_header, reply_header, is_null, is_request, drop_requests,
}
use net_port.Buffer.{Buffer, zeros}
use net_port.Packet.{Packet, fetch_header, rewind, Header, header_size, pack_flags}
use net_port.Packet.Message.{trimmed}
use net_port.Packet.Framing.{message, load-message_flags}
use net_port.Udp.{Datagram, UdpSocket, Host, Wire}
use net_port.Transfer.Sequence.{IsCounter}
use net_port.Transfer.Retry.{IsKept}
use net_port.Transfer.Receive.{
  header-one_word, only-one_word, header-two_words, first-two_words, second-two_words, at_mark,
}
use net_port.Transfer.Handshake.{call, datagram, connect-Asked, answer-sends}

is_request-request :
    (t : Transfer) → is_request (message (request_header t) (bytes32 t.lseqh) zeros 0) ≡ true
unfolding is_request pack_flags
is_request-request t = rw (load-message_flags (request_header t) (bytes32 t.lseqh) zeros 0)

drop_requests-last :
    (rs : List PacketRef) (r : PacketRef) (d : Buffer)
    → r.ptr ≡ some d
    → is_request d ≡ true
    → drop_requests (rs ++ r ∷ []) ≡ drop_requests rs
unfolding drop_requests
drop_requests-last [] r d here e = ground arith
drop_requests-last (x ∷ rs) r d here e = rw (drop_requests-last rs r d here e)

pub drop_requests-total :
    (rs : List PacketRef)
    → All IsKept rs
    → (rest : List PacketRef) × (drop_requests rs ≡ some rest) × All IsKept rest
unfolding drop_requests is_null
drop_requests-total [] vs = ([], refl, tt)
drop_requests-total (r ∷ rs) (v, vs) = elim (Option-cases r.ptr) [
  | inl e ↦ absurd (ground (arith, v.held))
  | inr (d, e) ↦
      let (rest, dropped, kept) = drop_requests-total rs vs in
      (
        if is_request d then rest else r ∷ rest,
        rw (e, dropped),
        if-cases (All IsKept) (is_request d) rest (r ∷ rest) (λ _. kept) (λ _. (v, kept)),
      )
]

rewound : (dg : Datagram) (n : ℕ) → rewind (at_mark dg n) ≡ received dg
unfolding received rewind
rewound dg n = refl

-- The headers of the two messages as they are read.
abbrev pub asking_header : Transfer → Header
asking_header c = record (trimmed (request_header c)) { len = 4 }

abbrev pub answering_header : Transfer → Transfer → Header
answering_header c s = record (trimmed (reply_header s (asking_header c))) { len = 8 }

-- The datagram starts with the header, and going back gives all of it.
abbrev pub IsRead : Datagram → Header → Type 0
IsRead dg h =
    (read : Packet) × (fetch_header (received dg) ≡ some (h, read)) × (rewind read ≡ received dg)

-- The whole exchange, and what each end knows after it.
pub record Handshake (hc hs : Host) (uc us : UdpSocket) (c s : Transfer) (wc ws : Wire)
    : Type 0 where
  pub asked : Received
  pub connects : connect hc uc c wc ≡ some asked
  pub request : Datagram
  pub request_taken : Bool
  pub request_read : IsRead request (asking_header c)
  pub sends_request : asked.wire ≡ call uc c request request_taken ∷ wc
  pub answered : Received
  pub handles_request : handle_recv hs us s (received request) ws ≡ some answered
  pub server : answered.transfer ≡ record s { rseq = c.lseq; rseqh = c.lseqh }
  pub reply : Datagram
  pub reply_taken : Bool
  pub reply_read : IsRead reply (answering_header c s)
  pub sends_reply : answered.wire ≡ call us s reply reply_taken ∷ ws
  pub opened : Received
  pub handles_reply : handle_recv hc uc asked.transfer (received reply) asked.wire ≡ some opened
  pub session : opened.transfer.rsess ≡ s.lsess
  pub number : opened.transfer.lsess ≡ c.lsess
  pub sequence : (opened.transfer.rseq ≡ s.lseq) × (opened.transfer.rseqh ≡ s.lseqh)
  pub settled : drop_requests c.rt ≡ some opened.transfer.rt
  pub quiet : opened.wire ≡ asked.wire

module _ (host : Host) (udp : UdpSocket) (t : Transfer) (opened : udp.handle ≢ 0)
    (linked : t.sys ≡ true) where
  -- The request of the end `c` arrives.
  request-arrives :
      (c : Transfer) (wire : Wire)
      → IsCounter c
      → c.lsess < 2 ^ 32
      → let dg = datagram (request_header c) (bytes32 c.lseqh) 20 in
        let h = record (trimmed (request_header c)) { len = 4 } in
        (r : Received) × (ok : Bool) × (handle_recv host udp t (received dg) wire ≡ some r)
        × (r.transfer ≡ record t { rseq = c.lseq; rseqh = c.lseqh })
        × (r.wire
            ≡ call udp t (datagram (reply_header t h) (bytes32 t.lsess ++ bytes32 t.lseqh) 24) ok
              ∷ wire)
  unfolding handle_recv handle_control
  request-arrives c wire v sess =
      let dg = datagram (request_header c) (bytes32 c.lseqh) 20 in
      let h = record (trimmed (request_header c)) { len = 4 } in
      let (r, ok, handles, knows, sends) =
        answer-sends host udp t opened linked h (at_mark dg header_size) (at_mark dg 16) c.lseqh
          wire
          (only-one_word dg (request_header c) c.lseqh (omega arith) refl (omega arith) sess v.0
            v.1) in
      (
        r,
        ok,
        rw
            (header-one_word dg (request_header c) c.lseqh (omega arith) refl (omega arith) sess v.0
              v.1)
            handles,
        knows,
        sends,
      )

module _ (host : Host) (udp : UdpSocket) (t : Transfer) where
  -- The reply of the end `s` to a header `mh` arrives.
  reply-arrives :
      (s : Transfer) (mh : Header) (wire : Wire) (rest : List PacketRef)
      → IsCounter s
      → s.lsess < 2 ^ 32
      → s.rsess < 2 ^ 32
      → drop_requests t.rt ≡ some rest
      → let dg = datagram (reply_header s mh) (bytes32 s.lsess ++ bytes32 s.lseqh) 24 in
        handle_recv host udp t (received dg) wire
        ≡ some (record {
          transfer = record t { rseq = s.lseq; rsess = s.lsess; rseqh = s.lseqh; rt = rest };
          wire = wire;
        })
  unfolding handle_recv handle_control handle_reply
  reply-arrives s mh wire rest v sess known drops =
      let h = reply_header s mh in
      let dg = datagram h (bytes32 s.lsess ++ bytes32 s.lseqh) 24 in
      rw (
        header-two_words dg h s.lsess s.lseqh (omega arith) refl (omega arith) known v.0 sess v.1,
        first-two_words dg h s.lsess s.lseqh (omega arith) refl (omega arith) known v.0 sess v.1,
        second-two_words dg h s.lsess s.lseqh (omega arith) refl (omega arith) known v.0 sess v.1,
        drops,
      )

-- Two ends with open sockets, counters and session numbers of 32 bits: `connect`, the peer's
-- handling of the request and the handling of its reply all succeed. The server learns the
-- client's counter from before the request; the client learns the server's session number and
-- counter, and no request is left on its list, which otherwise is as before.
pub connect-Handshake :
    (hc hs : Host) (uc us : UdpSocket) (c s : Transfer) (wc ws : Wire)
    → uc.handle ≢ 0
    → us.handle ≢ 0
    → c.sys ≡ true
    → s.sys ≡ true
    → IsCounter c
    → IsCounter s
    → c.lsess < 2 ^ 32
    → s.lsess < 2 ^ 32
    → s.rsess < 2 ^ 32
    → All IsKept c.rt
    → Handshake hc hs uc us c s wc ws
connect-Handshake hc hs uc us c s wc ws oc os lc ls vc vs cl sl sr kept =
    let (asked, connects, a) = connect-Asked hc uc c oc lc wc in
    let (answered, ok, handles, knows, sends) = request-arrives hs us s os ls c ws vc cl in
    let (rest, drops, _) = drop_requests-total c.rt kept in
    let mh = asking_header c in
    let settles : drop_requests asked.transfer.rt ≡ some rest =
      rw a.keeps (drop_requests-last c.rt a.last _ a.holds (is_request-request c) ∙ drops) in
    record {
      asked = asked;
      connects = connects;
      request = datagram (request_header c) (bytes32 c.lseqh) 20;
      request_read = (
        _,
        header-one_word (datagram (request_header c) (bytes32 c.lseqh) 20) (request_header c)
            c.lseqh (omega arith) refl (omega arith) cl vc.0 vc.1,
        rewound _ _,
      );
      request_taken = a.accepted;
      sends_request = a.sends;
      answered = answered;
      handles_request = handles;
      server = knows;
      reply = datagram (reply_header s mh) (bytes32 s.lsess ++ bytes32 s.lseqh) 24;
      reply_read = (
        _,
        header-two_words (datagram (reply_header s mh) (bytes32 s.lsess ++ bytes32 s.lseqh) 24)
            (reply_header s mh) s.lsess s.lseqh (omega arith) refl (omega arith) sr vs.0 sl vs.1,
        rewound _ _,
      );
      reply_taken = ok;
      sends_reply = sends;
      opened = record {
        transfer = record asked.transfer {
          rseq = s.lseq;
          rsess = s.lsess;
          rseqh = s.lseqh;
          rt = rest;
        };
        wire = asked.wire;
      };
      handles_reply = reply-arrives hc uc asked.transfer s mh asked.wire rest vs sl sr settles;
      session = refl;
      number = ap (λ (u : Transfer). u.lsess) a.keeps ∙ (unfold seqlocal in refl);
      sequence = (refl, refl);
      settled = drops;
      quiet = refl;
    }
