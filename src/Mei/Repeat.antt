-- ===== src/Mei/Repeat.antt =====
-- Requests that come again, and peers that the tables take for one.
use net_port.Mei.{
  PeerKey, Mei, Outcome, key_lt, same_key, find_pas, new_session, dispatch, receive_request,
  receive_other, route, process_packet,
}
use net_port.Common.{
  All, ℕ, ◌≡◌, ◌∙◌, ◌↔◌, refl, sym, ap, Bool, true, Option, none, some, ◌>>=◌, if◌then◌else◌, arith,
}
use net_port.Address.{NetworkAddress, word_at}
use net_port.Address.Order.{AreAlike, lt-equivalent_iff}
use net_port.Packet.{Packet, Header, fetch_header, rewind}
use net_port.Udp.{Host, Wire}
use net_port.System.{Log}
use net_port.Arc4.{Source}
use net_port.Transfer.{Transfer}
use net_port.Mei.Lookup.{find_pas-insert_pas}
use net_port.Mei.Dispatch.{asks_session, dispatch-tables}

-- The tables and the number of sessions are the same.
abbrev pub SameTables : Mei → Mei → Type 0
SameTables n m = (n.mim ≡ m.mim) × (n.pas ≡ m.pas) × (n.mis ≡ m.mis) × (n.next ≡ m.next)

module _ (host : Host) (sources : ℕ → Source) (raw : Transfer) where
  receive_request-known :
      (a : NetworkAddress) (ph : Header) (cr : Packet) (m : Mei) (log : Log) (wire : Wire) (id : ℕ)
      (x : Outcome)
      → find_pas (a, ph.session) m.pas ≡ some id
      → receive_request host sources raw a ph cr m log wire ≡ some x
      → SameTables x.mei m
  unfolding receive_request
  receive_request-known a ph cr m log wire id x known e =
      dispatch-tables host sources raw id cr m log wire (
        ap
          (λ (o : Option ℕ). elim o as (λ _. Option Outcome) [
            | some i ↦ dispatch host sources raw i cr m log wire
            | none ↦
                let (i, n) = new_session host sources raw a ph.session m in
                dispatch host sources raw i cr n log wire
          ])
          (sym known)
        ∙ e)

  pub new_session-found :
      (a : NetworkAddress) (session : ℕ) (m : Mei)
      → find_pas (a, session) m.pas ≡ none
      → let (id, n) = new_session host sources raw a session m in
        find_pas (a, session) n.pas ≡ some id
  unfolding new_session
  new_session-found a session m e = find_pas-insert_pas (a, session) m.next m.pas e

  receive_request-found :
      (a : NetworkAddress) (ph : Header) (cr : Packet) (m : Mei) (log : Log) (wire : Wire)
      (x : Outcome)
      → receive_request host sources raw a ph cr m log wire ≡ some x
      → (id : ℕ) × (find_pas (a, ph.session) x.mei.pas ≡ some id)
  unfolding receive_request
  receive_request-found a ph cr m log wire x e = at_entry (find_pas (a, ph.session) m.pas) refl e
    where
      at_entry :
          (o : Option ℕ)
          → find_pas (a, ph.session) m.pas ≡ o
          → (elim o [
            | some id ↦ dispatch host sources raw id cr m log wire
            | none ↦
                let (id, n) = new_session host sources raw a ph.session m in
                dispatch host sources raw id cr n log wire
          ])
            ≡ some x
          → (id : ℕ) × (find_pas (a, ph.session) x.mei.pas ≡ some id)
      at_entry none f e =
          let (id, n) = new_session host sources raw a ph.session m in
          (
            id,
            ap (find_pas (a, ph.session)) (dispatch-tables host sources raw id cr n log wire e).1
                ∙ new_session-found a ph.session m f,
          )
      at_entry (some id) f e = (
        id,
        ap (find_pas (a, ph.session)) (dispatch-tables host sources raw id cr m log wire e).1 ∙ f,
      )

  pub process_packet-request :
      (a : NetworkAddress) (ph : Header) (cr read : Packet) (m : Mei) (log : Log) (wire : Wire)
      → fetch_header cr ≡ some (ph, read)
      → asks_session ph ≡ true
      → process_packet host sources raw a cr m log wire
        ≡ receive_request host sources raw a ph (rewind read) m log wire
  unfolding process_packet route
  process_packet-request a ph cr read m log wire header asks =
      ap (λ (o : Option (Header × Packet)). o >>= route host sources raw a m log wire) header
      ∙ ap
          (λ (b : Bool).
            if b
            then receive_request host sources raw a ph (rewind read) m log wire
            else receive_other host sources raw ph (rewind read) m log wire)
          asks

  -- From an IPv4 address, with a table of peers whose addresses are IPv4 of the same type and
  -- protocol, where the comparison of keys is the order that std::map asks for: after a request for a
  -- session was handled, every further request from that address with the same session number, and
  -- whatever else it holds, makes no session: the tables and the number of sockets stay.
  pub process_packet-repeated :
      (a : NetworkAddress) (ph ph' : Header) (cr cr' read read' : Packet) (m : Mei) (log : Log)
      (wire : Wire) (x y : Outcome)
      → AreAlike a a
      → All (λ (e : PeerKey × ℕ). AreAlike a (e.0.0)) m.pas
      → fetch_header cr ≡ some (ph, read)
      → fetch_header cr' ≡ some (ph', read')
      → asks_session ph ≡ true
      → asks_session ph' ≡ true
      → ph'.session ≡ ph.session
      → process_packet host sources raw a cr m log wire ≡ some x
      → process_packet host sources raw a cr' x.mei x.log x.wire ≡ some y
      → SameTables y.mei x.mei
  process_packet-repeated a ph ph' cr cr' read read' m log wire x y _ _ h h' q q' same e e' =
      let first = sym (process_packet-request a ph cr read m log wire h q) ∙ e in
      let again = sym (process_packet-request a ph' cr' read' x.mei x.log x.wire h' q') ∙ e' in
      let (id, found) = receive_request-found a ph (rewind read) m log wire x first in
      receive_request-known a ph' (rewind read') x.mei x.log x.wire id y
        (ap (λ (s : ℕ). find_pas (a, s) x.mei.pas) same ∙ found) again

-- The keys of two IPv4 peers of one type and protocol are one key exactly if the session numbers
-- agree and the port and the first two octets do: hosts that differ behind that share a session.
pub same_key_iff :
    (a b : NetworkAddress) (s r : ℕ)
    → AreAlike a b
    → (same_key (a, s) (b, r) ≡ true) ↔ ((word_at a 0 ≡ word_at b 0) × (s ≡ r))
unfolding same_key key_lt
same_key_iff a b s r v =
    let (to, from) = lt-equivalent_iff a b v in
    (λ e. (to (ground arith), ground arith), λ e. ground (arith, from e.0, e.1))
