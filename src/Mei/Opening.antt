-- ===== src/Mei/Opening.antt =====
-- The steps of a session between two systems, one by one.
use net_port.Common.{
  ℕ, ◌^◌, ◌<◌, ◌≡◌, ◌∙◌, refl, ap, Bool, true, false, Option, none, some, ◌>>=◌, if◌then◌else◌,
}
use net_port.Address.{NetworkAddress}
use net_port.Packet.{Packet, Header, fetch_header, rewind}
use net_port.Udp.{Host, Wire}
use net_port.System.{Log}
use net_port.Arc4.{Source}
use net_port.Arc4.Permutation.{arc4random-IsReady, IsSound}
use net_port.Transfer
use net_port.Transfer.{Transfer, Received, handle_recv, received, drop_requests}
use net_port.Transfer.Sequence.{IsCounter}
use net_port.Mei.{
  Mei, Outcome, set_transfer, find_mim, find_pas, draw, new_socket, new_session, dispatch,
  receive_request, receive_other, route, process_packet, connect, connect_new,
}
use net_port.Mei.Sessions.{eq_self}
use net_port.Mei.Dispatch.{asks_session}
use net_port.Mei.Runs.{entered}

module _ (host : Host) (sources : ℕ → Source) (raw : Transfer) where
  pub dispatch-runs :
      (id : ℕ) (cr : Packet) (m : Mei) (log : Log) (wire : Wire) (r : Received)
      → m.alive id ≡ true
      → handle_recv host m.udpsck (m.transfers id) cr wire ≡ some r
      → dispatch host sources raw id cr m log wire
        ≡ some (record { mei = set_transfer id r.transfer m; log = log; wire = r.wire })
  unfolding dispatch
  dispatch-runs id cr m log wire r living runs = rw (living, runs) refl

  pub receive_request-new :
      (a : NetworkAddress) (ph : Header) (cr : Packet) (m : Mei) (log : Log) (wire : Wire)
      → find_pas (a, ph.session) m.pas ≡ none
      → let (id, n) = new_session host sources raw a ph.session m in
        receive_request host sources raw a ph cr m log wire
        ≡ dispatch host sources raw id cr n log wire
  unfolding receive_request
  receive_request-new a ph cr m log wire e =
      ap
        (λ (o : Option ℕ). elim o as (λ _. Option Outcome) [
          | some i ↦ dispatch host sources raw i cr m log wire
          | none ↦
              let (i, n) = new_session host sources raw a ph.session m in
              dispatch host sources raw i cr n log wire
        ])
        e

  pub process_packet-known :
      (a : NetworkAddress) (ph : Header) (cr read : Packet) (m : Mei) (log : Log) (wire : Wire)
      (id : ℕ)
      → fetch_header cr ≡ some (ph, read)
      → asks_session ph ≡ false
      → find_mim ph.session m.mim ≡ some id
      → process_packet host sources raw a cr m log wire
        ≡ dispatch host sources raw id (rewind read) m log wire
  unfolding process_packet route receive_other
  process_packet-known a ph cr read m log wire id header asks known =
      ap (λ (o : Option (Header × Packet)). o >>= route host sources raw a m log wire) header
      ∙ ap
          (λ (b : Bool).
            if b
            then receive_request host sources raw a ph (rewind read) m log wire
            else receive_other host sources raw ph (rewind read) m log wire)
          asks
      ∙ ap
          (λ (o : Option ℕ). elim o as (λ _. Option Outcome) [
            | some i ↦ dispatch host sources raw i (rewind read) m log wire
            | none ↦ some (record { mei = m; log = log; wire = wire })
          ])
          known

  draw-IsSound :
      (m : Mei)
      → IsSound m.rng
      → let (w, n) = draw host sources raw m in (w < 2 ^ 32) × IsSound n.rng
  unfolding draw
  draw-IsSound m v =
      let (small, ready) = arc4random-IsReady (sources m.drawn) m.rng v in
      (small, λ _. ready.stream)

  -- The transfer of a new socket, and its counters.
  new_socket-drawn :
      (m : Mei)
      → IsSound m.rng
      → let (id, n) = new_socket host sources raw m in IsCounter (n.transfers id) × IsSound n.rng
  unfolding new_socket
  new_socket-drawn m v =
      let (first, v₁) = draw-IsSound m v in
      let (second, v₂) = draw-IsSound (draw host sources raw m).1 v₁ in
      (rw (eq_self m.next) (first, second), v₂)

  -- The new session of a request.
  pub new_session-drawn :
      (a : NetworkAddress) (session : ℕ) (m : Mei)
      → IsSound m.rng
      → let (id, n) = new_session host sources raw a session m in
        let t = n.transfers id in
        IsCounter t
        × (t.lsess < 2 ^ 32)
        × (t.rsess ≡ session)
        × (t.sys ≡ true)
        × (t.remote ≡ a)
        × (n.alive id ≡ true)
  unfolding new_session new_socket
  new_session-drawn a session m v =
      let (counts, v₁) = new_socket-drawn m v in
      let (number, _) = draw-IsSound (new_socket host sources raw m).1 v₁ in
      rw (eq_self m.next) ((rw (eq_self m.next) at counts), number, refl, refl, refl, refl)

  -- The transfer that connect starts with, and what connecting a new socket leaves.
  abbrev pub client : NetworkAddress → Mei → Transfer
  client a m =
      let (id, m₁) = new_socket host sources raw m in
      let (lsid, m₂) = draw host sources raw m₁ in
      record (m₂.transfers id) { sys = true; remote = a; lsess = lsid }

  abbrev pub after_draw : Mei → Mei
  after_draw m = (draw host sources raw (new_socket host sources raw m).1).1

  pub connect_new-runs :
      (a : NetworkAddress) (m : Mei) (log : Log) (wire : Wire) (r : Received)
      → Transfer.connect host (after_draw m).udpsck (client a m) wire ≡ some r
      → connect_new host sources raw a m log wire
        ≡ some (record {
          mei =
              entered host sources raw
                (new_socket host sources raw m).0
                (client a m).lsess
                r.transfer
                (after_draw m);
          log = log;
          wire = r.wire;
        })
  unfolding connect_new connect
  connect_new-runs a m log wire r connects =
      ap
        (λ (o : Option Received). o >>= (λ s. some (record {
          mei =
              entered host sources raw (new_socket host sources raw m).0 (client a m).lsess
                s.transfer (after_draw m);
          log = log;
          wire = s.wire;
        })))
        connects

  pub client-IsCounter :
      (a : NetworkAddress) (m : Mei)
      → IsSound m.rng
      → IsCounter (client a m) × ((client a m).lsess < 2 ^ 32)
  unfolding draw
  client-IsCounter a m v =
      let (counts, v₁) = new_socket-drawn m v in
      let (number, _) = draw-IsSound (new_socket host sources raw m).1 v₁ in (counts, number)
