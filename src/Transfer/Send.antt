-- ===== src/Transfer/Send.antt =====
-- `IMEITransfer::send`: what enters the retransmission list, and the calls that change nothing.
use net_port.Common.{
  dec_lt, ◌≤◌, ◌≡◌, refl, List, [], ◌∷◌, ◌++◌, true, false, none, some, All, All-append, arith, inl,
  inr, ◌⊎◌,
}
use net_port.Buffer.{Buffer, packet_size}
use net_port.Packet.{Packet, complete}
use net_port.Packet.Bounds.{IsBounded}
use net_port.Packet.Complete.{closed, complete_lem, complete_nothing}
use net_port.Udp.{UdpSocket, Host, Wire}
use net_port.Transfer.{
  PacketRef, Transfer, SendResult, send_ref, send, keep_ref, keep_sendable, seqlocal, taken,
  packet_ref, is_null, cseqlocal,
}
use net_port.Transfer.Retry.{IsKept}

-- `send` took the packet `q`: it is the last of the list, sent once, under the next number.
pub record Kept (t : Transfer) (q : Packet) (s : SendResult) : Type 0 where
  pub ok : s.ok ≡ true
  pub emptied : s.packet ≡ taken q
  pub last : PacketRef
  pub appended : s.transfer.rt ≡ t.rt ++ last ∷ []
  pub once : last.attempt ≡ 1
  pub numbered : last.seq ≡ cseqlocal t
  pub holds : last.ptr ≡ q.ptr
  pub sized : last.pksz ≡ q.pksz
  pub kept : IsKept last
  pub linked : s.transfer.sys ≡ t.sys

module _ (host : Host) (udp : UdpSocket) (t : Transfer) (linked : t.sys ≡ true) where
  pub send_ref_first :
      (r : PacketRef) (wire : Wire)
      → r.attempt ≡ 0
      → is_null r.ptr ≡ false
      → 1 ≤ r.pksz
      → r.pksz ≤ packet_size
      → let ref = (send_ref host udp t r wire).ref in
        (ref.attempt ≡ 1) × (ref.seq ≡ r.seq) × (ref.ptr ≡ r.ptr) × (ref.pksz ≡ r.pksz) × IsKept ref
  unfolding send_ref
  send_ref_first r wire new held full fits = ground arith

module _ (host : Host) (udp : UdpSocket) (t : Transfer) (linked : t.sys ≡ true) where
  keep_ref-Kept :
      (q : Packet) (wire : Wire)
      → is_null q.ptr ≡ false
      → 1 ≤ q.pksz
      → q.pksz ≤ packet_size
      → Kept t q (keep_ref host udp t q wire)
  unfolding keep_ref seqlocal
  keep_ref-Kept q wire held full fits =
      let r = packet_ref q (cseqlocal t) in
      let first = send_ref_first host udp (seqlocal t).1 linked r wire refl held full fits in
      record {
        ok = refl;
        emptied = refl;
        last = (send_ref host udp (seqlocal t).1 r wire).ref;
        appended = refl;
        once = first.0;
        numbered = first.1;
        holds = first.2;
        sized = first.3;
        kept = first.4;
        linked = refl;
      }

  -- A packet that `complete` closes with at least one byte in it is kept: its buffer moves to
  -- the end of the list, sent once, under the next sequence number.
  pub send-Kept :
      (p q : Packet) (wire : Wire)
      → is_null p.ptr ≡ false
      → complete p ≡ some q
      → is_null q.ptr ≡ false
      → 1 ≤ q.pksz
      → q.pksz ≤ packet_size
      → (s : SendResult) × (send host udp t p wire ≡ some s) × Kept t q s
  unfolding send keep_sendable
  send-Kept p q wire here closed held full fits =
      (keep_ref host udp t q wire, ground arith, keep_ref-Kept q wire held full fits)

-- The completed packet still has a buffer, and no fewer bytes.
complete_holds :
    (p : Packet) (d : Buffer)
    → p.ptr ≡ some d
    → IsBounded p
    → 1 ≤ p.pksz
    → (q : Packet) × (complete p ≡ some q)
      × (is_null q.ptr ≡ false)
      × (1 ≤ q.pksz)
      × (q.pksz ≤ packet_size)
unfolding is_null
complete_holds p d here v full = elim (dec_lt p.ch p.mark) [
  | yes is_open ↦
      (closed p d, complete_lem p d here is_open (ground arith), refl, ground arith, ground arith)
  | no done ↦ (p, complete_nothing p d here (omega arith), rw here refl, full, v.size)
]

pub All-last :
    (rs : List PacketRef) (r : PacketRef) → All IsKept rs → IsKept r → All IsKept (rs ++ r ∷ [])
All-last rs r vs v = All-append IsKept rs (r ∷ []) vs (v, tt)

-- A packet in bounds that has a buffer and a byte in it is accepted: `send` does not fault, closes
-- it, moves its buffer to the end of the list as sent once under the next number, and the whole
-- list stays well formed.
pub send-accepts :
    (host : Host) (udp : UdpSocket) (t : Transfer) (p : Packet) (d : Buffer) (wire : Wire)
    → t.sys ≡ true
    → All IsKept t.rt
    → p.ptr ≡ some d
    → IsBounded p
    → 1 ≤ p.pksz
    → (q : Packet) × (s : SendResult) × (complete p ≡ some q)
      × (send host udp t p wire ≡ some s)
      × Kept t q s
      × All IsKept s.transfer.rt
unfolding is_null
send-accepts host udp t p d wire linked vs here v full =
    let (q, closes, held, full', fits) = complete_holds p d here v full in
    let (s, sends, k) =
      send-Kept host udp t linked p q wire (rw here refl) closes held full' fits in
    (q, s, closes, sends, k, rw k.appended (All-last t.rt k.last vs k.kept))

-- A session with no system, or a packet with no buffer, is refused: nothing is sent, kept or
-- counted, and the packet stays as it was.
send-refuses :
    (host : Host) (udp : UdpSocket) (t : Transfer) (p : Packet) (wire : Wire)
    → (t.sys ≡ false) ⊎ (p.ptr ≡ none)
    → send host udp t p wire ≡ some (record { transfer = t; packet = p; wire = wire; ok = false })
unfolding send is_null
send-refuses host udp t p wire (inl e) = ground arith
send-refuses host udp t p wire (inr e) = ground arith
