-- ===== src/Mei/Tests.antt =====
-- A system on a small network, and its theorems at its runs.
use net_port.Buffer.{load, zeros, set_byte}
use net_port.Common.{pos, ℕ, ◌≡◌, ◌↔◌, refl, true, false, [], ◌∷◌, none, some, arith}
use net_port.Address.{NetworkAddress, undefined_address, neta_ip4, word_at}
use net_port.Packet.{Packet, Header, fetch_header, header_size, rewind}
use net_port.Udp.{UdpSocket, Host}
use net_port.System.{System}
use net_port.Arc4.{Source}
use net_port.Transfer.{Transfer, received, handle_recv, handle_control}
use net_port.Mei.{
  Mei, process_packet, same_key, set_transfer, find_mim, route, receive_other, dispatch, new_mei,
  find_pas, PeerKey,
}
use net_port.Mei.Validity.{IsValid}
use net_port.Mei.Steps.{Works, process_packet-Works}
use net_port.Mei.Dispatch.{process_packet-isolates}
use net_port.Mei.Repeat.{process_packet-repeated, same_key_iff, SameTables}
use net_port.Transfer.Total.{received-Readable}
use net_port.Mei.Connection.{Connected, connect_new-Connected}

abbrev socket : UdpSocket
socket = record { handle = 3; bound = true; laddr = undefined_address }

-- What a new transfer finds in its memory.
abbrev raw : Transfer
raw = record {
  sys = false;
  remote = undefined_address;
  lsess = 0;
  rsess = 0;
  rt = [];
  lseq = 7;
  lseqh = 0;
  rseq = 0;
  rseqh = 0;
}

-- A network that takes every datagram, and no entropy.
abbrev network : Host
network _ _ _ _ = true

abbrev sources : ℕ → Source
sources _ _ = none

-- Every call answers 12, and every byte that arrives is 240.
abbrev host : System
host = record {
  answer = λ _ _. 12;
  would_block = λ _. false;
  readable = λ _ _. true;
  writable = λ _ _. false;
  failed = λ _ _. false;
  peer = λ _. undefined_address;
  arrived = λ _. 240 ∷ 240 ∷ 240 ∷ 240 ∷ 240 ∷ 240 ∷ [];
}

abbrev empty_mei : Mei
empty_mei =
    record (new_mei
      (record {
        rs = record { i = 0; j = 0; s = zeros };
        initialized = false;
        count = pos 0;
        seeded_ok = false;
      })
      (λ _. raw)) { udpsck = socket }

empty_mei-IsValid : IsValid empty_mei
empty_mei-IsValid = record {
  usable = λ e. omega (arith, e);
  listed = tt;
  by_number = tt;
  by_peer = tt;
}

-- Two sessions, 5 and 6, and a datagram for the first.
abbrev two_sessions : Mei
two_sessions = record empty_mei { mim = (5, 0) ∷ (6, 1) ∷ []; alive = λ _. true; next = 2 }

abbrev to_five : Header
to_five = record { len = 0; flags = 0; code = 0; session = 5; sequence = 9 }

abbrev datagram_five : Packet
datagram_five = received (record { bytes = set_byte (set_byte zeros 4 5) 8 9; size = 12 })

to_five_read :
    fetch_header datagram_five ≡ some (to_five, record datagram_five { mark = header_size })
unfolding fetch_header received load
to_five_read = refl

to_five_done :
    process_packet network sources raw undefined_address datagram_five two_sessions [] []
    ≡ some (record { mei = set_transfer 0 raw two_sessions; log = []; wire = [] })
unfolding process_packet route receive_other find_mim dispatch handle_recv handle_control
    fetch_header received rewind load
to_five_done = refl

process_packet-isolates_example : (set_transfer 0 raw two_sessions).transfers 1 ≡ raw
process_packet-isolates_example =
    process_packet-isolates network sources raw undefined_address to_five datagram_five
      (record datagram_five { mark = header_size }) two_sessions [] [] 1
      (record { mei = set_transfer 0 raw two_sessions; log = []; wire = [] }) to_five_read
      to_five_done (omega arith) (unfold find_mim in λ e. ground arith)

-- 10.0.7.7 and 10.0.9.9
abbrev host_address : ℕ → NetworkAddress
host_address k = record {
  family = 2;
  sa_data = set_byte (set_byte zeros 2 10) 4 k;
  af = neta_ip4;
  type = 0;
  proto = 0;
}

-- A request of session 5, twice.
abbrev asking : Header
asking = record { len = 0; flags = 0x40; code = 0xf01; session = 5; sequence = 0 }

abbrev request_five : Packet
request_five = received (record {
  bytes = set_byte (set_byte (set_byte (set_byte zeros 1 0x00) 2 0x18) 3 0xf0) 4 5;
  size = 12;
})

asking_read : fetch_header request_five ≡ some (asking, record request_five { mark = header_size })
unfolding fetch_header received load
asking_read = refl

abbrev first_time :
    Works (process_packet network sources raw (host_address 7) request_five empty_mei [] [])
first_time =
    process_packet-Works network sources raw (host_address 7) request_five empty_mei [] []
      empty_mei-IsValid (received-Readable _)

abbrev second_time : Works (
    process_packet network sources raw
      (host_address 7)
      request_five
      first_time.0.mei
      first_time.0.log
      first_time.0.wire)
second_time =
    process_packet-Works network sources raw (host_address 7) request_five first_time.0.mei
      first_time.0.log first_time.0.wire first_time.2 (received-Readable _)

process_packet-repeated_example : SameTables second_time.0.mei first_time.0.mei
process_packet-repeated_example =
    process_packet-repeated network sources raw (host_address 7) asking asking request_five
      request_five (record request_five { mark = header_size })
      (record request_five { mark = header_size }) empty_mei [] [] first_time.0 second_time.0
      (record { left_ip4 = refl; right_ip4 = refl; same_type = refl; same_proto = refl }) tt
      asking_read asking_read refl refl refl first_time.1 second_time.1

same_key_iff_example :
    (same_key (host_address 7, 3) (host_address 9, 3) ≡ true)
    ↔ ((word_at (host_address 7) 0 ≡ word_at (host_address 9) 0) × (◌≡◌ {A = ℕ} 3 3))
same_key_iff_example =
    same_key_iff (host_address 7) (host_address 9) 3 3
      (record { left_ip4 = refl; right_ip4 = refl; same_type = refl; same_proto = refl })

none_by_number : (k : ℕ) → find_mim k [] ≡ none
unfolding find_mim
none_by_number k = refl

none_by_peer : (k : PeerKey) → find_pas k [] ≡ none
unfolding find_pas
none_by_peer k = refl

connect_new-Connected_example :
    Connected network network sources sources raw raw
      (host_address 7)
      (host_address 9)
      empty_mei
      empty_mei
      []
      []
      []
      []
connect_new-Connected_example =
    connect_new-Connected network network sources sources raw raw (host_address 7) (host_address 9)
      empty_mei empty_mei [] [] [] [] empty_mei-IsValid empty_mei-IsValid
      (λ e. absurd (ground (arith, e))) (λ e. absurd (ground (arith, e))) (none_by_number _)
      (none_by_peer _)
