-- ===== src/Packet/Tests.antt =====
-- Runs of the packet functions on small inputs, and the theorems on packets at such inputs.
use net_port.Common.{
  ℕ, ◌≡◌, refl, [], ◌∷◌, Option, none, some, arith, ◌>>=◌, bytes32, ◌↔◌, ◌<◌, ◌%◌, ◌-◌,
}
use net_port.Buffer.{Buffer, zeros, store, load}
use net_port.Packet.{
  Packet, Header, reset, insert, insert_header, complete, fetch_header, rewind, empty_packet,
  zero_header, room, fetch, trailer,
}
use net_port.Packet.Framing.{send_message, send_message-fetch}
use net_port.Packet.Complete.{complete-none_iff}
use net_port.Packet.Bounds.{Runs, run, headers, inserts, completes, run-IsBounded}

-- The header that `IMEITransfer::connect` sends.
abbrev request : Header
request = record { len = 0; flags = 0x40; code = 0xf01; session = 7; sequence = 9 }

abbrev sizes : Option Packet → Option (ℕ × ℕ × ℕ)
sizes none = none
sizes (some p) = some (p.pksz, p.mark, p.ch)

request_sizes : sizes (send_message request (bytes32 5) (reset empty_packet)) ≡ some (20, 20, 20)
unfolding send_message reset insert_header insert complete store load
request_sizes = refl

request_padded :
    sizes (send_message request (1 ∷ 2 ∷ 3 ∷ 4 ∷ 5 ∷ []) (reset empty_packet)) ≡ some (24, 24, 24)
unfolding send_message reset insert_header insert complete store load
request_padded = refl

abbrev header_of : Option (Header × Packet) → Header
header_of none = zero_header
header_of (some (h, p)) = h

request_read :
    header_of
      (send_message request (bytes32 5) (reset empty_packet) >>= (λ p. fetch_header (rewind p)))
    ≡ record request { len = 4 }
unfolding send_message reset insert_header insert complete store load fetch_header rewind
request_read = refl

-- A full datagram read up to its end.
abbrev read_up : Packet
read_up = record { pksz = 2048; mark = 2048; ch = 0; ptr = some zeros }

complete-none_iff_example : (complete read_up ≡ none) ↔ ((0 < 2048) × (room < 2048))
complete-none_iff_example = complete-none_iff read_up zeros refl (omega arith)

run-IsBounded_example :
    Runs (run (headers request ∷ inserts (1 ∷ []) ∷ completes ∷ []) (reset empty_packet))
unfolding reset
run-IsBounded_example =
    run-IsBounded (headers request ∷ inserts (1 ∷ []) ∷ completes ∷ [])
      (tt, (omega arith, (tt, tt))) (reset empty_packet) (omega arith)

send_message-fetch_example :
    (q : Packet) × (e : Buffer) × (send_message request (1 ∷ 2 ∷ []) (reset empty_packet) ≡ some q)
    × (q.ptr ≡ some e)
    × (fetch_header (record q { mark = 0 })
        ≡ some (record request { len = 2 }, record q { mark = 12 }))
    × (fetch 2 (record q { mark = 12 }) ≡ some (1 ∷ 2 ∷ [], record q { mark = 14 }))
    × (q.mark % 4 ≡ 0)
    × (load e (q.mark - 4) 4 ≡ bytes32 trailer)
unfolding reset
send_message-fetch_example =
    send_message-fetch request (1 ∷ 2 ∷ []) (reset empty_packet) zeros refl refl (omega arith)
      (omega arith) (omega arith) (omega arith)
