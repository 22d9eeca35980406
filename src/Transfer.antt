-- ===== src/Transfer.antt =====
-- `IMEITransfer` and `IPacketRef` (src/IMEI.hpp, src/MEISocket.cpp): one MEI session, its sequence
-- counters, the packets kept for retransmission, and the handling of what arrives. The members
-- that no function reads or writes are left out. `none` is an access outside a buffer or through
-- a null pointer.
pub mod Sequence
pub mod Retry
pub mod Send
pub mod Receive
pub mod Handshake
pub mod Opening
pub mod Total
mod Tests
use net_port.Common.{
  ℕ, zero, suc, ◌+◌, ◌-◌, ◌*◌, ◌^◌, ◌%◌, ◌≡◌, Bool, true, false, not, ◌||◌, ◌&&◌, List, [], ◌∷◌,
  ◌++◌, Option, none, some, ltb, ◌==◌, if◌then◌else◌, ◌>>=◌, u32, bytes32, word32, bit_and, bit_or,
  ◌<<◌,
}
use net_port.Buffer.{Buffer, packet_size, load}
use net_port.Packet.{
  Packet, Header, empty_packet, reset, insert32, insert_header, complete, fetch_header, fetch32,
}
use net_port.Address.{NetworkAddress}
use net_port.Udp.{UdpSocket, Wire, Host, Datagram, send_to}

pub record PacketRef : Type 0 where
  pub pksz : ℕ
  pub ptr : Option Buffer
  pub wait : ℕ
  pub attempt : ℕ
  pub seq : ℕ

-- `sys` says whether the pointer to the system is set.
pub record Transfer : Type 0 where
  pub sys : Bool
  pub remote : NetworkAddress
  pub lsess : ℕ
  pub rsess : ℕ
  pub rt : List PacketRef
  pub lseq : ℕ
  pub lseqh : ℕ
  pub rseq : ℕ
  pub rseqh : ℕ

-- MEIF_CONTROL and the codes of the handshake
abbrev pub control : ℕ
control = 0x40

abbrev pub session_request : ℕ
session_request = 0xf01

abbrev pub session_reply : ℕ
session_reply = 0xf02

-- IPacketRef(Packet &p, uint64_t sq) takes the buffer over.
abbrev pub packet_ref : Packet → ℕ → PacketRef
packet_ref p sq = record { pksz = p.pksz; ptr = p.ptr; wait = 0; attempt = 0; seq = sq }

abbrev pub taken : Packet → Packet
taken p = record p { pksz = 0; ptr = none }

unfoldable pub cseqlocal : Transfer → ℕ
cseqlocal t = bit_or (t.lseqh << 32) t.lseq

unfoldable pub seqlocal : Transfer → ℕ × Transfer
unfolding cseqlocal
seqlocal t =
    let lseq = u32 (t.lseq + 1) in
    (
      cseqlocal t,
      record t { lseq = lseq; lseqh = if lseq == 0 then u32 (t.lseqh + 1) else t.lseqh },
    )

-- cpseqlocal, cseqremote and cpseqremote
unfoldable cpseqlocal : ℕ → Transfer → ℕ
cpseqlocal seq t = bit_or (t.lseqh << 32) seq

unfoldable cseqremote : Transfer → ℕ
cseqremote t = bit_or (t.rseqh << 32) t.rseq

unfoldable cpseqremote : ℕ → Transfer → ℕ
cpseqremote seq t = bit_or (t.rseqh << 32) seq

-- operator=(IPacketRef &&): the value of the target, and what is left of the source. The buffer that
-- the target had is not deleted.
unfoldable move_ref : PacketRef → PacketRef → PacketRef × PacketRef
move_ref target source = (source, record source { pksz = 0; ptr = none })

-- The result of IMEITransfer::send(IPacketRef &): the reference, the calls made, 0 or -1.
pub record Sent : Type 0 where
  pub ref : PacketRef
  pub wire : Wire
  pub ok : Bool

unfoldable pub is_null : Option Buffer → Bool
is_null none = true
is_null (some d) = false

abbrev pub contents : PacketRef → Buffer
contents r = elim r.ptr [ none ↦ (λ _. 0) | some d ↦ d ]

-- The result of IMEITransfer::send(Packet &).
pub record SendResult : Type 0 where
  pub transfer : Transfer
  pub packet : Packet
  pub wire : Wire
  pub ok : Bool

-- What HandleInterval makes of the retransmission list.
pub record Round : Type 0 where
  pub rt : List PacketRef
  pub wire : Wire

pub record Received : Type 0 where
  pub transfer : Transfer
  pub wire : Wire

abbrev pub is_control : ℕ → Bool
is_control flags = not (bit_and flags control == 0)

-- The first word of a request that `connect` sent, with its length masked out.
abbrev pub request_word : ℕ
request_word = bit_or 0xf0100000 (control << 13)

unfoldable pub is_request : Buffer → Bool
is_request d = request_word == bit_and (word32 (load d 0 4)) 0xffffe000

-- The erasing loop of HandleRecv; it dereferences every buffer.
unfoldable pub drop_requests : List PacketRef → Option (List PacketRef)
unfolding is_request
drop_requests [] = some []
drop_requests (r ∷ rs) = do
  d ← r.ptr
  rest ← drop_requests rs
  some (if is_request d then rest else r ∷ rest)

-- The packet that MEISystem::ProcessReceive hands on: recvfrom fills a fresh buffer, cutting what
-- does not fit, and the packet is rewound.
unfoldable pub received : Datagram → Packet
received dg =
    let r = if ltb packet_size dg.size then packet_size else dg.size in
    record { pksz = r; mark = 0; ch = 0; ptr = some (λ i. if ltb i r then dg.bytes i else 0) }

-- The headers that `connect` and the answer to a request send.
abbrev pub request_header : Transfer → Header
request_header t = record {
  len = 0;
  flags = control;
  code = session_request;
  session = t.lsess;
  sequence = t.lseq;
}

abbrev pub reply_header : Transfer → Header → Header
reply_header t mh = record {
  len = mh.len;
  flags = control;
  code = session_reply;
  session = t.rsess;
  sequence = t.lseq;
}

module _ (host : Host) (udp : UdpSocket) where
  unfoldable pub send_ref : Transfer → PacketRef → Wire → Sent
  unfolding is_null send_to
  send_ref t p wire =
      if not t.sys
      then record { ref = p; wire = wire; ok = false }
      else (if is_null p.ptr || p.pksz == 0
          then record { ref = p; wire = wire; ok = false }
          else (let (ok, wire') =
                send_to host udp t.remote (record { bytes = contents p; size = p.pksz }) wire in
              record {
                ref = record p { attempt = u32 (p.attempt + 1); wait = if ok then 500 else 100 };
                wire = wire';
                ok = ok;
              }))

  -- rt.push_back(IPacketRef(p, seqlocal())), and the first attempt at sending it.
  unfoldable pub keep_ref : Transfer → Packet → Wire → SendResult
  keep_ref t q wire =
      let (sq, t') = seqlocal t in
      let s = send_ref t' (packet_ref q sq) wire in
      record {
        transfer = record t' { rt = t'.rt ++ s.ref ∷ [] };
        packet = taken q;
        wire = s.wire;
        ok = true;
      }

  -- The packet after complete(), kept if it has a size that can be sent.
  unfoldable pub keep_sendable : Transfer → Wire → Packet → Option SendResult
  keep_sendable t wire q =
      if q.pksz == 0 || ltb packet_size q.pksz
      then some (record { transfer = t; packet = q; wire = wire; ok = false })
      else some (keep_ref t q wire)

  -- IMEITransfer::send(Packet &)
  unfoldable pub send : Transfer → Packet → Wire → Option SendResult
  send t p wire =
      if not t.sys || is_null p.ptr
      then some (record { transfer = t; packet = p; wire = wire; ok = false })
      else complete p >>= keep_sendable t wire

  -- HandleInterval: one round over the list.
  unfoldable pub interval : Transfer → List PacketRef → Wire → Round
  unfolding send_ref
  interval t [] wire = record { rt = []; wire = wire }
  interval t (r ∷ rs) wire =
      let wait = u32 (r.wait + 2 ^ 32 - 1) in
      elim (wait == 0) [
        | true ↦ elim (ltb 5 r.attempt) [
          | true ↦ interval t rs wire
          | false ↦
              let s = send_ref t (record r { wait = wait }) wire in
              let round = interval t rs s.wire in record round { rt = s.ref ∷ round.rt }
        ]
        | false ↦
            let round = interval t rs wire in
            record round { rt = record r { wait = wait } ∷ round.rt }
      ]

  unfoldable pub handle_interval : Transfer → Wire → Received
  unfolding interval
  handle_interval t wire =
      let round = interval t t.rt wire in
      record { transfer = record t { rt = round.rt }; wire = round.wire }

  unfoldable pub connect : Transfer → Wire → Option Received
  connect t wire = do
    p ← insert_header (request_header t) (reset empty_packet)
    q ← insert32 t.lseqh p
    s ← send t q wire
    some (record { transfer = s.transfer; wire = s.wire })

  -- The two control messages of HandleRecv.
  unfoldable pub handle_request : Transfer → Header → Packet → Wire → Option Received
  handle_request t mh pem wire = do
    (rseqh, pem') ← fetch32 pem
    let t' : Transfer = record t { rseq = mh.sequence; rseqh = rseqh }
    p₁ ← insert_header (reply_header t' mh) (reset empty_packet)
    p₂ ← insert32 t'.lsess p₁
    p₃ ← insert32 t'.lseqh p₂
    p₄ ← complete p₃
    let s = send_ref t' (packet_ref p₄ (cseqlocal t')) wire
    some (record { transfer = t'; wire = s.wire })

  unfoldable pub handle_reply : Transfer → Header → Packet → Wire → Option Received
  handle_reply t mh pem wire = do
    (rsess, pem') ← fetch32 pem
    (rseqh, pem'') ← fetch32 pem'
    rt ← drop_requests t.rt
    some (record {
      transfer = record t { rseq = mh.sequence; rsess = rsess; rseqh = rseqh; rt = rt };
      wire = wire;
    })

  unfoldable pub handle_control : Transfer → Wire → Header × Packet → Option Received
  handle_control t wire (mh, pem) =
      if is_control mh.flags && mh.code == session_request
      then handle_request t mh pem wire
      else (if is_control mh.flags && mh.code == session_reply
          then handle_reply t mh pem wire
          else some (record { transfer = t; wire = wire }))

  unfoldable pub handle_recv : Transfer → Packet → Wire → Option Received
  handle_recv t pem wire = fetch_header pem >>= handle_control t wire

-- MEISocket::recv, which leaves the packet as it is
abbrev receive_result : Transfer → ℕ
receive_result t = if t.sys then 0 else 2 ^ 32 - 1
