-- ===== src/Memory.antt =====
-- The buffers on the heap that a Packet (include/net/MEISocket.hpp) and a session (src/IMEI.hpp,
-- src/MEISocket.cpp) use: who allocates one, who takes it over, and who deletes it.
pub mod Leaks
mod Tests
use net_port.Common.{ℕ, ◌+◌, ◌-◌, List, [], ◌∷◌, Option, none, some, ◌>>=◌, if◌then◌else◌}
use net_port.Buffer.{Buffer}
use net_port.Packet.{Packet, alloc, reset, empty_packet, insert_header, insert32}
use net_port.Packet.Bounds.{
  Call, inserts, headers, completes, rewinds, resets, call, own, allocations,
}
use net_port.Udp.{UdpSocket, Wire, Host}
use net_port.Transfer.{request_header, Transfer, send, handle_interval}

-- A packet and a session, with the number of buffers allocated and deleted so far, and of the
-- calls of send that returned 0
pub record Life : Type 0 where
  pub packet : Packet
  pub transfer : Transfer
  pub wire : Wire
  pub made : ℕ
  pub deleted : ℕ
  pub accepted : ℕ

-- ~Packet(): the buffers deleted
abbrev pub deletions : Packet → ℕ
deletions p = own p.ptr

-- What a program does with the packet and the session. `requests` is connect of the session, with a
-- packet of its own. `destroys` ends the packet and makes a new
-- one; `ends` is the end of the session, whose list of references is destroyed with it.
pub data Use : Type 0 where
  allocates : Use
  writes : (c : Call) → Use
  sends requests ticks destroys ends : Use

module _ (host : Host) (udp : UdpSocket) where
  unfoldable pub use_once : Use → Life → Option Life
  unfolding alloc call
  use_once allocates l =
      some (record l { packet = alloc l.packet; made = l.made + (1 - own l.packet.ptr) })
  use_once (writes c) l = call c l.packet >>= λ q.
      some (record l { packet = q; made = l.made + allocations c l.packet })
  use_once sends l = send host udp l.transfer l.packet l.wire >>= λ s. some (record l {
    transfer = s.transfer;
    packet = s.packet;
    wire = s.wire;
    accepted = l.accepted + (if s.ok then 1 else 0);
  })
  use_once requests l = do
    p ← insert_header (request_header l.transfer) (reset empty_packet)
    q ← insert32 l.transfer.lseqh p
    s ← send host udp l.transfer q l.wire
    some (record l {
      transfer = s.transfer;
      wire = s.wire;
      made = l.made + 1;
      deleted = l.deleted + deletions s.packet;
      accepted = l.accepted + (if s.ok then 1 else 0);
    })
  use_once ticks l =
      let r = handle_interval host udp l.transfer l.wire in
      some (record l { transfer = r.transfer; wire = r.wire })
  use_once destroys l =
      some (record l { packet = empty_packet; deleted = l.deleted + deletions l.packet })
  use_once ends l = some (record l { transfer = record l.transfer { rt = [] } })

  unfoldable pub use_all : List Use → Life → Option Life
  use_all [] l = some l
  use_all (u ∷ us) l = use_once u l >>= use_all us
