-- ===== src/Transfer/Total.antt =====
-- No datagram makes the handling of what arrives fault, and what the handling keeps.
use net_port.Common.{
  ◌&&◌, ◌==◌, word32, ℕ, ◌+◌, ◌^◌, ◌≤◌, ◌<◌, ◌≡◌, ◌∙◌, refl, ap, true, List, Option, some, ◌>>=◌,
  arith, All, inl, inr, Option-cases, if◌then◌else◌, if-cases, bytes32,
}
use net_port.Transfer.{
  session_request, session_reply, is_control, cseqlocal, packet_ref, send_ref, Transfer, Received,
  received, handle_recv, handle_control, handle_request, handle_reply, handle_interval,
  reply_header, interval,
}
use net_port.Packet.{
  zero_header, zero_bytes, Packet, Header, header_size, fetch, fetch_header, reset, empty_packet,
}
use native.Mathlib.Decide.{dec_le}
use net_port.Buffer.{packet_size}
use net_port.Packet.Bounds.{insert-Runs, insert_header-Runs, complete-Runs}
use net_port.Packet.Insert.{fetch_lem, fetch_end, fetch_header_lem, fetch_header_end}
use net_port.Udp.{UdpSocket, Host, Wire, Datagram}
use net_port.Transfer.Retry.{IsKept, All-LivesFor, All-IsKept, interval-LivesFor}
use net_port.Transfer.Opening.{drop_requests-total}

-- What a handler leaves alone, and that the list stays well formed.
pub record Stays (t : Transfer) (u : Transfer) : Type 0 where
  pub system : u.sys ≡ t.sys
  pub peer : u.remote ≡ t.remote
  pub number : u.lsess ≡ t.lsess
  pub low : u.lseq ≡ t.lseq
  pub high : u.lseqh ≡ t.lseqh
  pub kept : All IsKept u.rt

-- The positions of a packet that is read lie in the buffer.
abbrev pub Readable : Packet → Type 0
Readable p = (p.pksz ≤ packet_size) × (p.mark ≤ packet_size)

fetch-total :
    (p : Packet) (n : ℕ)
    → n < 2 ^ 31
    → Readable p
    → (bs : List ℕ) × (q : Packet) × (fetch n p ≡ some (bs, q)) × Readable q
fetch-total p n small v = elim (Option-cases p.ptr) [
  | inl e ↦ (zero_bytes n, p, unfold fetch in ground arith, v)
  | inr (d, e) ↦ elim (dec_le (p.mark + n) p.pksz) [
    | yes fits ↦ (_, _, fetch_lem p d e n fits v.0, (v.0, omega arith))
    | no past ↦ (_, p, fetch_end p d e n (omega arith) (omega arith), v)
  ]
]

pub fetch_header-total :
    (p : Packet)
    → Readable p
    → (h : Header) × (q : Packet) × (fetch_header p ≡ some (h, q)) × Readable q
fetch_header-total p v = elim (Option-cases p.ptr) [
  | inl e ↦ (zero_header, p, unfold fetch_header in ground arith, v)
  | inr (d, e) ↦ elim (dec_le (p.mark + header_size) p.pksz) [
    | yes fits ↦ (_, _, fetch_header_lem p d e fits v.0, (v.0, omega arith))
    | no past ↦ (_, p, fetch_header_end p d e v.1 (omega arith), v)
  ]
]

module _ (host : Host) (udp : UdpSocket) (t : Transfer) (vs : All IsKept t.rt) where
  handle_request-total :
      (mh : Header) (p : Packet) (wire : Wire)
      → Readable p
      → (r : Received) × (handle_request host udp t mh p wire ≡ some r) × Stays t r.transfer
  unfolding handle_request
  handle_request-total mh p wire v =
      let (bs, q, e₀, _) = fetch-total p 4 (omega arith) v in
      let t' : Transfer = record t { rseq = mh.sequence; rseqh = word32 bs } in
      let (p₁, e₁, v₁) =
        insert_header-Runs (reset empty_packet) (unfold reset in ground arith)
          (reply_header t' mh) in
      let (p₂, e₂, v₂) = insert-Runs p₁ v₁ (bytes32 t.lsess) (omega arith) in
      let (p₃, e₃, v₃) = insert-Runs p₂ v₂ (bytes32 t.lseqh) (omega arith) in
      let (p₄, e₄, v₄) = complete-Runs p₃ v₃ in
      (
        record {
          transfer = t';
          wire = (send_ref host udp t' (packet_ref p₄ (cseqlocal t')) wire).wire;
        },
        rw (e₀, e₁, e₂, e₃, e₄) refl,
        record { system = refl; peer = refl; number = refl; low = refl; high = refl; kept = vs },
      )

  handle_reply-total :
      (mh : Header) (p : Packet) (wire : Wire)
      → Readable p
      → (r : Received) × (handle_reply host udp t mh p wire ≡ some r) × Stays t r.transfer
  unfolding handle_reply
  handle_reply-total mh p wire v =
      let (bs, q, e₀, v₀) = fetch-total p 4 (omega arith) v in
      let (cs, q', e₁, _) = fetch-total q 4 (omega arith) v₀ in
      let (rest, drops, kept) = drop_requests-total t.rt vs in
      (
        record {
          transfer = record t {
            rseq = mh.sequence;
            rsess = word32 bs;
            rseqh = word32 cs;
            rt = rest;
          };
          wire = wire;
        },
        rw (e₀, e₁, drops) refl,
        record { system = refl; peer = refl; number = refl; low = refl; high = refl; kept = kept },
      )

  abbrev Handles : Option Received → Type 0
  Handles o = (r : Received) × (o ≡ some r) × Stays t r.transfer

  handle_control-total :
      (mh : Header) (q : Packet) (wire : Wire)
      → Readable q
      → Handles (handle_control host udp t wire (mh, q))
  unfolding handle_control
  handle_control-total mh q wire v =
      let other = some (record { transfer = t; wire = wire }) in
      let reply = is_control mh.flags && mh.code == session_reply in
      let replied = if reply then handle_reply host udp t mh q wire else other in
      let same : Stays t t = record {
        system = refl;
        peer = refl;
        number = refl;
        low = refl;
        high = refl;
        kept = vs;
      } in
      if-cases Handles (is_control mh.flags && mh.code == session_request)
        (handle_request host udp t mh q wire) replied (λ _. handle_request-total mh q wire v)
        (λ _.
          if-cases Handles reply (handle_reply host udp t mh q wire) other
            (λ _. handle_reply-total mh q wire v)
            (λ _. (record { transfer = t; wire = wire }, refl, same)))

  pub handle_recv-total :
      (p : Packet) (wire : Wire)
      → Readable p
      → (r : Received) × (handle_recv host udp t p wire ≡ some r) × Stays t r.transfer
  unfolding handle_recv
  handle_recv-total p wire v =
      let (mh, q, e, w) = fetch_header-total p v in
      let (r, handles, stays) = handle_control-total mh q wire w in
      (
        r,
        ap (λ (o : Option (Header × Packet)). o >>= handle_control host udp t wire) e ∙ handles,
        stays,
      )

pub received-Readable : (dg : Datagram) → Readable (received dg)
unfolding received
received-Readable dg = ground arith

module _ (host : Host) (udp : UdpSocket) (t : Transfer) (linked : t.sys ≡ true)
    (vs : All IsKept t.rt) where
  pub handle_interval-Stays : (wire : Wire) → Stays t (handle_interval host udp t wire).transfer
  unfolding handle_interval
  handle_interval-Stays wire = record {
    system = refl;
    peer = refl;
    number = refl;
    low = refl;
    high = refl;
    kept = All-IsKept 2999 (interval host udp t t.rt wire).rt (
        interval-LivesFor host udp t linked 2999 t.rt wire
          (All-LivesFor 3000 (omega arith) t.rt vs));
  }
