-- ===== src/Memory/Tests.antt =====
-- A message that is sent, and then given up or not.
use net_port.Common.{◌≡◌, refl, true, List, [], ◌∷◌, some, arith}
use net_port.Address.{undefined_address}
use net_port.Packet.{empty_packet}
use net_port.Packet.Bounds.{inserts, resets}
use net_port.Udp.{UdpSocket, Host}
use net_port.Transfer.{Transfer}
use net_port.Memory.{Life, Use, writes, sends, requests, ticks, destroys, ends, use_all}
use net_port.Memory.Leaks.{IsCounted, use_all-IsCounted}

abbrev session : Transfer
session = record {
  sys = true;
  remote = undefined_address;
  lsess = 7;
  rsess = 9;
  rt = [];
  lseq = 1;
  lseqh = 0;
  rseq = 0;
  rseqh = 0;
}

abbrev socket : UdpSocket
socket = record { handle = 5; bound = true; laddr = undefined_address }

abbrev network : Host
network _ _ _ _ = true

abbrev first_life : Life
first_life = record {
  packet = empty_packet;
  transfer = session;
  wire = [];
  made = 0;
  deleted = 0;
  accepted = 0;
}

abbrev uses : List Use
uses =
    writes resets
    ∷ writes (inserts (1 ∷ 2 ∷ 3 ∷ 4 ∷ []))
    ∷ sends
    ∷ requests
    ∷ ticks
    ∷ ends
    ∷ destroys
    ∷ writes resets
    ∷ destroys
    ∷ []

use_all-IsCounted_example :
    (m : Life) × (use_all network socket uses first_life ≡ some m) × IsCounted m
use_all-IsCounted_example =
    use_all-IsCounted network socket uses first_life
      (tt, (omega arith, (tt, (tt, (tt, (tt, (tt, (tt, (tt, tt)))))))))
      (record { bounded = ground arith; counted = refl })
