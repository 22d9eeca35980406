-- ===== src/Memory/Leaks.antt =====
-- Every buffer that a session has taken over stays on the heap.
use net_port.Memory.{
  insert_header, Life, Use, allocates, writes, sends, requests, ticks, destroys, ends, use_once,
  use_all, deletions,
}
use net_port.Buffer.{zeros, Buffer, packet_size}
use net_port.Common.{
  bytes32, ◌+◌, ◌-◌, ◌≡◌, ◌∙◌, refl, ap, false, ◌||◌, not, List, [], ◌∷◌, Option, none, some, arith,
  All, ◌>>=◌, if◌then◌else◌, if-cases, ◌==◌, ltb,
}
use net_port.Packet.{empty_packet, reset, insert32, Packet, alloc}
use net_port.Packet.Bounds.{
  insert_header-Holds, insert-Holds, IsBounded, IsSmall, call-Holds, complete-Holds, own,
  allocations,
}
use net_port.Udp.{UdpSocket, Wire, Host}
use net_port.Transfer.{
  Received, connect, request_header, Transfer, SendResult, send, keep_sendable, keep_ref, is_null,
  taken,
}

abbrev pub IsSmallUse : Use → Type 0
IsSmallUse (writes c) = IsSmall c
IsSmallUse _ = Unit

-- The packet is in bounds, and the buffers that are not deleted are its own and one for each call
-- of send that returned 0.
pub record IsCounted (l : Life) : Type 0 where
  pub bounded : IsBounded l.packet
  pub counted : l.made ≡ l.deleted + own l.packet.ptr + l.accepted

abbrev pub Counts : Option Life → Type 0
Counts o = (m : Life) × (o ≡ some m) × IsCounted m

alloc-IsBounded : (p : Packet) → IsBounded p → IsBounded (alloc p)
unfolding alloc
alloc-IsBounded p v =
    elim p.ptr as (λ o. IsBounded (elim o [ none ↦ record p { ptr = some zeros } | some d ↦ p ])) [
      | none ↦ record {
        size = v.size;
        position = v.position;
        message = v.message;
        closable = v.closable;
      }
      | some d ↦ v
    ]

own-alloc : (p : Packet) → own (alloc p).ptr ≡ own p.ptr + (1 - own p.ptr)
unfolding alloc
own-alloc p = ground arith

taken-IsBounded : (q : Packet) → IsBounded q → IsBounded (taken q)
taken-IsBounded q v = record {
  size = omega arith;
  position = v.position;
  message = v.message;
  closable = v.closable;
}

full-own : (o : Option Buffer) → is_null o ≡ false → own o ≡ 1
unfolding is_null
full-own none h = absurd (ground arith)
full-own (some d) h = refl

-- What send does to the packet: it is given up exactly if 0 is returned.
abbrev SendsOn : Packet → Option SendResult → Type 0
SendsOn p o =
    (s : SendResult) × (o ≡ some s)
    × IsBounded s.packet
    × (own s.packet.ptr + (if s.ok then 1 else 0) ≡ own p.ptr)

abbrev session_of : Life → Option (Transfer × Wire)
session_of l = some (l.transfer, l.wire)

abbrev received_of : Received → Option (Transfer × Wire)
received_of r = some (r.transfer, r.wire)

abbrev sent_on : SendResult → Received
sent_on s = record { transfer = s.transfer; wire = s.wire }

abbrev requested : Life → SendResult → Life
requested l s = record l {
  transfer = s.transfer;
  wire = s.wire;
  made = l.made + 1;
  deleted = l.deleted + deletions s.packet;
  accepted = l.accepted + (if s.ok then 1 else 0);
}

-- Two chains that agree after every value agree.
alike :
    {A : Type 0} (o : Option A) (f : A → Option Life) (g : A → Option Received)
    → ((x : A) → (f x >>= session_of) ≡ (g x >>= received_of))
    → ((o >>= f) >>= session_of) ≡ ((o >>= g) >>= received_of)
alike none f g each = refl
alike (some x) f g each = each x

module _ (host : Host) (udp : UdpSocket) where
  keep_sendable-SendsOn :
      (t : Transfer) (wire : Wire) (p q : Packet)
      → IsBounded q
      → own q.ptr ≡ own p.ptr
      → own p.ptr ≡ 1
      → SendsOn p (keep_sendable host udp t wire q)
  unfolding keep_sendable keep_ref
  keep_sendable-SendsOn t wire p q v same full =
      if-cases (SendsOn p) (q.pksz == 0 || ltb packet_size q.pksz) _ _
        (λ _. (_, refl, v, omega (arith, same)))
        (λ _. (_, refl, taken-IsBounded q v, omega (arith, full)))

  send-SendsOn :
      (t : Transfer) (p : Packet) (wire : Wire) → IsBounded p → SendsOn p (send host udp t p wire)
  unfolding send
  send-SendsOn t p wire v =
      if-cases (SendsOn p) (not t.sys || is_null p.ptr) _ _ (λ _. (_, refl, v, omega arith))
        (λ h.
          let (q, closes, w, same) = complete-Holds p v in
          let (s, keeps, z, k) =
            keep_sendable-SendsOn t wire p q w same (full-own p.ptr (ground (arith, h))) in
          (s, ap (λ (o : Option Packet). o >>= keep_sendable host udp t wire) closes ∙ keeps, z, k))

  use_once-Counts :
      (u : Use) → IsSmallUse u → (l : Life) → IsCounted l → Counts (use_once host udp u l)
  unfolding use_once
  use_once-Counts allocates small l v = (
    _,
    refl,
    record {
      bounded = alloc-IsBounded l.packet v.bounded;
      counted = let e = own-alloc l.packet in let c = v.counted in omega (arith, e, c);
    },
  )
  use_once-Counts (writes c) small l v =
      let (q, goes, w, same) = call-Holds c small l.packet v.bounded in
      let after : Packet → Life =
        λ q. record l { packet = q; made = l.made + allocations c l.packet } in
      (
        after q,
        ap (λ (o : Option Packet). o >>= λ p. some (after p)) goes,
        record { bounded = w; counted = let c = v.counted in omega (arith, same, c) },
      )
  use_once-Counts sends small l v =
      let (s, goes, w, same) = send-SendsOn l.transfer l.packet l.wire v.bounded in
      let after : SendResult → Life = λ s. record l {
        transfer = s.transfer;
        packet = s.packet;
        wire = s.wire;
        accepted = l.accepted + (if s.ok then 1 else 0);
      } in
      (
        after s,
        ap (λ (o : Option SendResult). o >>= λ r. some (after r)) goes,
        record { bounded = w; counted = let c = v.counted in omega (arith, same, c) },
      )
  use_once-Counts requests small l v =
      let t = l.transfer in
      let fresh : IsBounded (reset empty_packet) = unfold reset in ground arith in
      let (p, heads, w₁, h₁) = insert_header-Holds (reset empty_packet) fresh (request_header t) in
      let (q, fills, w₂, h₂) = insert-Holds p w₁ (bytes32 t.lseqh) (omega arith) in
      let (s, goes, w₃, given) = send-SendsOn t q l.wire w₂ in
      let after = requested l in
      let from_q : Packet → Option Life = λ q. send host udp t q l.wire >>= λ s. some (after s) in
      let from_p : Packet → Option Life = λ p. insert32 t.lseqh p >>= from_q in
      (
        after s,
        ap (λ (o : Option Packet). o >>= from_p) heads
            ∙ ap (λ (o : Option Packet). o >>= from_q) fills
            ∙ ap (λ (o : Option SendResult). o >>= λ r. some (after r)) goes,
        record {
          bounded = v.bounded;
          counted =
              let c = v.counted in
              let one : own (reset empty_packet).ptr ≡ 1 = unfold reset in refl in
              omega (arith, c, one, h₁, h₂, given);
        },
      )
  use_once-Counts ticks small l v = (_, refl, record { bounded = v.bounded; counted = v.counted })
  use_once-Counts destroys small l v =
      (_, refl, record { bounded = ground arith; counted = let c = v.counted in omega (arith, c) })
  use_once-Counts ends small l v = (_, refl, record { bounded = v.bounded; counted = v.counted })

  -- `requests` is connect of the session.
  requests-connect :
      (l : Life)
      → (use_once host udp requests l >>= session_of)
        ≡ (connect host udp l.transfer l.wire >>= received_of)
  unfolding use_once connect
  requests-connect l =
      let t = l.transfer in
      let send_life : Packet → Option Life =
        λ q. send host udp t q l.wire >>= λ s. some (requested l s) in
      let send_received : Packet → Option Received =
        λ q. send host udp t q l.wire >>= λ s. some (sent_on s) in
      alike (insert_header (request_header t) (reset empty_packet))
        (λ p. insert32 t.lseqh p >>= send_life) (λ p. insert32 t.lseqh p >>= send_received)
        (λ p. alike (insert32 t.lseqh p) send_life send_received (λ q.
          alike (send host udp t q l.wire) (λ s. some (requested l s)) (λ s. some (sent_on s))
            (λ s. refl)))

  -- From a packet in bounds, with sizes below 2 ^ 31: every sequence of alloc, of the calls that
  -- write the packet, of send, of connect of the session, of ticks, of the end of the packet and
  -- of the end of the session returns, and of the buffers allocated those that are not deleted are
  -- the packet's own and one for each send that returned 0, those that connect makes included. So
  -- a buffer that the session took over stays on the heap, also when the session has given it up
  -- or has ended.
  pub use_all-IsCounted :
      (us : List Use) (l : Life)
      → All IsSmallUse us
      → IsCounted l
      → (m : Life) × (use_all host udp us l ≡ some m) × IsCounted m
  unfolding use_all
  use_all-IsCounted [] l small v = (l, refl, v)
  use_all-IsCounted (u ∷ us) l (one, small) v =
      let (m, goes, w) = use_once-Counts u one l v in
      let (k, lasts, z) = use_all-IsCounted us m small w in
      (k, ap (λ (o : Option Life). o >>= use_all host udp us) goes ∙ lasts, z)
