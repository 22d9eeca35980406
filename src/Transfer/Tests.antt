-- ===== src/Transfer/Tests.antt =====
-- Runs of the transfer layer on small inputs, and its theorems at such inputs.
use net_port.Common.{All, ◌+◌, ◌*◌, ◌^◌, ◌≡◌, refl, true, false, [], ◌∷◌, some, arith, length, u64}
use net_port.Buffer.{zeros}
use net_port.Packet.{Packet, complete}
use net_port.Packet.Bounds.{IsBounded}
use net_port.Address.{undefined_address}
use net_port.Udp.{UdpSocket, Host}
use net_port.Transfer.{
  Transfer, PacketRef, SendResult, connect, handle_recv, received, seqlocal, send,
}
use net_port.Transfer.Sequence.{seqlocal-drawn, drawn, seq_value}
use net_port.Transfer.Retry.{IsKept, rounds, rounds-expire, attempts_left}
use net_port.Transfer.Send.{Kept, send-accepts}
use net_port.Transfer.Opening.{Handshake, connect-Handshake}

abbrev client : Transfer
client = record {
  sys = true;
  remote = undefined_address;
  lsess = 7;
  rsess = 0;
  rt = [];
  lseq = 0xffff_ffff;
  lseqh = 4;
  rseq = 0;
  rseqh = 0;
}

abbrev server : Transfer
server = record client { lsess = 9; rsess = 7; lseq = 100; lseqh = 6 }

abbrev socket : UdpSocket
socket = record { handle = 3; bound = false; laddr = undefined_address }

-- A system that takes the first datagram and refuses the others.
abbrev takes_one : Host
takes_one [] _ _ _ = true
takes_one (c ∷ cs) _ _ _ = false

abbrev waiting : PacketRef
waiting = record { pksz = 20; ptr = some zeros; wait = 500; attempt = 1; seq = 5 }

waiting-IsKept : IsKept waiting
waiting-IsKept = record {
  held = unfold net_port.Transfer.is_null in refl;
  full = omega arith;
  fits = omega arith;
  sent = omega arith;
  tries = omega arith;
  waits = omega arith;
  soon = omega arith;
}

carry : seq_value (seqlocal client).1 ≡ 5 * 2 ^ 32
unfolding seqlocal
carry = refl

seqlocal-drawn_example : (seqlocal (drawn 3 client)).0 ≡ u64 (seq_value client + 3)
seqlocal-drawn_example = (seqlocal-drawn client (omega arith)).0 3

rounds-expire_example :
    let r = rounds takes_one socket 3000 (record client { rt = waiting ∷ [] }) [] in
    (r.transfer.rt ≡ []) × (length r.wire ≡ 0 + attempts_left (waiting ∷ []))
rounds-expire_example =
    rounds-expire takes_one socket (λ e. cc) 3000 (record client { rt = waiting ∷ [] }) []
      (omega arith) refl (waiting-IsKept, tt)

connect-Handshake_example : Handshake takes_one takes_one socket socket client server [] []
connect-Handshake_example =
    connect-Handshake takes_one takes_one socket socket client server [] [] (λ e. omega arith)
      (λ e. omega arith) refl refl (omega arith) (omega arith) (omega arith) (omega arith)
      (omega arith) tt

-- A packet with one word in it.
abbrev one_word : Packet
one_word = record { pksz = 4; mark = 4; ch = 0; ptr = some zeros }

one_word-IsBounded : IsBounded one_word
one_word-IsBounded = record {
  size = omega arith;
  position = omega arith;
  message = omega arith;
  closable = omega arith;
}

send-accepts_example :
    (q : Packet) × (s : SendResult) × (complete one_word ≡ some q)
    × (send takes_one socket client one_word [] ≡ some s)
    × Kept client q s
    × All IsKept s.transfer.rt
send-accepts_example =
    send-accepts takes_one socket client one_word zeros [] refl tt refl one_word-IsBounded
      (omega arith)
