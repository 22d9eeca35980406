-- ===== src/Mei/Dispatch.antt =====
-- Which session a datagram reaches.
use net_port.Mei.Steps.{new_session-Agrees}
use net_port.Common.{
  ℕ, ◌<◌, ◌≡◌, ◌≢◌, ◌∙◌, refl, sym, ap, Bool, true, false, Option, none, some, ◌>>=◌, ◌==◌, ◌&&◌,
  if◌then◌else◌, arith,
}
use net_port.Address.{NetworkAddress}
use net_port.Packet.{Packet, Header, fetch_header, rewind}
use net_port.Udp.{Host, Wire}
use net_port.System.{Log}
use net_port.Arc4.{Source}
use net_port.Transfer.{Transfer, is_control, session_request}
use net_port.Mei.{
  Mei, Outcome, find_mim, find_pas, new_session, dispatch, receive_request, receive_other, route,
  process_packet,
}

abbrev pub asks_session : Header → Bool
asks_session ph = ph.code == session_request && is_control ph.flags

-- The session that the tables name for a datagram.
abbrev pub target : NetworkAddress → Header → Mei → Option ℕ
target a ph m =
    if asks_session ph then find_pas (a, ph.session) m.pas else find_mim ph.session m.mim

module _ (host : Host) (sources : ℕ → Source) (raw : Transfer) where
  dispatch-other :
      (id j : ℕ) (cr : Packet) (m : Mei) (log : Log) (wire : Wire) {x : Outcome}
      → dispatch host sources raw id cr m log wire ≡ some x
      → id ≢ j
      → x.mei.transfers j ≡ m.transfers j
  unfolding dispatch
  dispatch-other id j cr m log wire e differ = ground arith

  pub dispatch-tables :
      (id : ℕ) (cr : Packet) (m : Mei) (log : Log) (wire : Wire) {x : Outcome}
      → dispatch host sources raw id cr m log wire ≡ some x
      → (x.mei.mim ≡ m.mim) × (x.mei.pas ≡ m.pas) × (x.mei.mis ≡ m.mis) × (x.mei.next ≡ m.next)
  unfolding dispatch
  dispatch-tables id cr m log wire e = ground arith

  new_session-ne :
      (a : NetworkAddress) (session : ℕ) (m : Mei) (j : ℕ)
      → j < m.next
      → (new_session host sources raw a session m).0 ≢ j
  unfolding new_session
  new_session-ne a session m j made e = omega arith

  -- What a request and another datagram do to a session that the tables do not name.
  receive_request-other :
      (a : NetworkAddress) (ph : Header) (cr : Packet) (m : Mei) (log : Log) (wire : Wire) (j : ℕ)
      (x : Outcome)
      → receive_request host sources raw a ph cr m log wire ≡ some x
      → j < m.next
      → find_pas (a, ph.session) m.pas ≢ some j
      → x.mei.transfers j ≡ m.transfers j
  unfolding receive_request
  receive_request-other a ph cr m log wire j x e made differ =
      at_entry (find_pas (a, ph.session) m.pas) refl e
    where
      at_entry :
          (o : Option ℕ)
          → find_pas (a, ph.session) m.pas ≡ o
          → (elim o [
            | some id ↦ dispatch host sources raw id cr m log wire
            | none ↦
                let (id, n) = new_session host sources raw a ph.session m in
                dispatch host sources raw id cr n log wire
          ])
            ≡ some x
          → x.mei.transfers j ≡ m.transfers j
      at_entry none f e =
          let (id, n) = new_session host sources raw a ph.session m in
          dispatch-other id j cr n log wire e (new_session-ne a ph.session m j made)
          ∙ (new_session-Agrees host sources raw a ph.session m).same j made
      at_entry (some id) f e = dispatch-other id j cr m log wire e (λ h. differ (f ∙ ap some h))

  receive_other-other :
      (ph : Header) (cr : Packet) (m : Mei) (log : Log) (wire : Wire) (j : ℕ) (x : Outcome)
      → receive_other host sources raw ph cr m log wire ≡ some x
      → find_mim ph.session m.mim ≢ some j
      → x.mei.transfers j ≡ m.transfers j
  unfolding receive_other
  receive_other-other ph cr m log wire j x e differ = at_entry (find_mim ph.session m.mim) refl e
    where
      at_entry :
          (o : Option ℕ)
          → find_mim ph.session m.mim ≡ o
          → (elim o [
            | some id ↦ dispatch host sources raw id cr m log wire
            | none ↦ some (record { mei = m; log = log; wire = wire })
          ])
            ≡ some x
          → x.mei.transfers j ≡ m.transfers j
      at_entry none f e = ground arith
      at_entry (some id) f e = dispatch-other id j cr m log wire e (λ h. differ (f ∙ ap some h))

  -- A datagram with the header `ph` changes no session but the one that the tables name for it: by
  -- its sender and session number if it asks for a session, by its session number if not. Every
  -- other session that was there stays as it was.
  pub process_packet-isolates :
      (a : NetworkAddress) (ph : Header) (cr read : Packet) (m : Mei) (log : Log) (wire : Wire)
      (j : ℕ) (x : Outcome)
      → fetch_header cr ≡ some (ph, read)
      → process_packet host sources raw a cr m log wire ≡ some x
      → j < m.next
      → target a ph m ≢ some j
      → x.mei.transfers j ≡ m.transfers j
  unfolding process_packet route
  process_packet-isolates a ph cr read m log wire j x header e made differ =
      chosen (asks_session ph)
        (ap (λ (o : Option (Header × Packet)). o >>= route host sources raw a m log wire)
            (sym header)
          ∙ e)
        differ
    where
      chosen :
          (b : Bool)
          → (if b
              then receive_request host sources raw a ph (rewind read) m log wire
              else receive_other host sources raw ph (rewind read) m log wire)
            ≡ some x
          → (if b then find_pas (a, ph.session) m.pas else find_mim ph.session m.mim) ≢ some j
          → x.mei.transfers j ≡ m.transfers j
      chosen true e d = receive_request-other a ph (rewind read) m log wire j x e made d
      chosen false e d = receive_other-other ph (rewind read) m log wire j x e d
