-- ===== src/Mei/Steps.antt =====
-- Every step of a system returns and keeps the invariant, whatever arrives.
use net_port.Mei.{
  insert_mim, Mei, Outcome, set_transfer, find_mim, find_pas, new_session, dispatch,
  receive_request, receive_other, route, process_packet, process_receive, arrival,
}
use net_port.Common.{
  ℕ, ◌≡◌, refl, sym, ap, subst, Option, none, some, ◌>>=◌, ◌==◌, ◌&&◌, ◌||◌, All, arith, if-cases,
}
use net_port.Buffer.{packet_size}
use net_port.Address.{NetworkAddress, undefined_address}
use net_port.Packet.{Packet, Header, rewind}
use net_port.Udp.{Host, Wire}
use net_port.Udp.Calls.{recv_from}
use net_port.System.{System, Log, is_negative}
use net_port.Arc4.{Source}
use net_port.Transfer.{Transfer, is_control, session_request}
use net_port.Transfer.Total.{Readable, handle_recv-total, fetch_header-total, received-Readable}
use net_port.Mei.Lookup.{find_mim-All, find_pas-All, insert_mim-All, insert_pas-All}
use net_port.Mei.Sessions.{eq_self, IsSession, set_transfer-Extends, Agrees, Agrees-Extends}
use net_port.Mei.Validity.{
  IsValid, Numbered, Peered, listed-Extends, Numbered-Extends, Peered-Extends, Extends-IsValid,
}

-- The step returns, and the system it leaves is valid.
abbrev pub Works : Option Outcome → Type 0
Works o = (x : Outcome) × (o ≡ some x) × IsValid x.mei

module _ (host : Host) (sources : ℕ → Source) (raw : Transfer) where
  pub new_session-Agrees :
      (a : NetworkAddress) (session : ℕ) (m : Mei)
      → Agrees m (new_session host sources raw a session m).1
  unfolding new_session
  new_session-Agrees a session m = record {
    grown = λ j h. omega arith;
    living = λ j h. ground arith;
    same = λ j h. ground arith;
  }

  pub new_session-IsSession :
      (a : NetworkAddress) (session : ℕ) (m : Mei)
      → let (id, n) = new_session host sources raw a session m in
        IsSession n id × ((n.transfers id).remote ≡ a)
  unfolding new_session
  new_session-IsSession a session m = (
    record {
      made = omega arith;
      alive = ground arith;
      sound = rw (eq_self m.next) (record { linked = refl; kept = tt });
    },
    ground arith,
  )

  new_session-lsess :
      (a : NetworkAddress) (session : ℕ) (m : Mei)
      → let (id, n) = new_session host sources raw a session m in
        n.mim ≡ insert_mim ((n.transfers id).lsess) id m.mim
  unfolding new_session
  new_session-lsess a session m = rw (eq_self m.next) refl

  new_session-IsValid :
      (a : NetworkAddress) (session : ℕ) (m : Mei)
      → IsValid m
      → IsValid (new_session host sources raw a session m).1
  unfolding new_session
  new_session-IsValid a session m v =
      let (id, n) = new_session host sources raw a session m in
      let x = Agrees-Extends m n (new_session-Agrees a session m) in
      let (s, peer) = new_session-IsSession a session m in
      record {
        usable = v.usable;
        listed = (s, listed-Extends m n x m.mis v.listed);
        by_number = subst (All (Numbered n)) (sym (new_session-lsess a session m)) (
            insert_mim-All (Numbered n) ((n.transfers id).lsess) id m.mim (s, refl)
              (Numbered-Extends m n x m.mim v.by_number));
        by_peer =
            insert_pas-All (Peered n) (a, session) id m.pas (s, peer)
              (Peered-Extends m n x m.pas v.by_peer);
      }

  dispatch-Works :
      (id : ℕ) (cr : Packet) (m : Mei) (log : Log) (wire : Wire)
      → IsValid m
      → IsSession m id
      → Readable cr
      → Works (dispatch host sources raw id cr m log wire)
  unfolding dispatch
  dispatch-Works id cr m log wire v s readable =
      let (r, handles, stays) =
        handle_recv-total host m.udpsck (m.transfers id) s.sound.kept cr wire readable in
      let n = set_transfer id r.transfer m in
      (
        record { mei = n; log = log; wire = r.wire },
        rw (s.alive, handles) refl,
        Extends-IsValid m n (set_transfer-Extends m id r.transfer stays) v refl refl refl refl,
      )

  receive_request-Works :
      (a : NetworkAddress) (ph : Header) (cr : Packet) (m : Mei) (log : Log) (wire : Wire)
      → IsValid m
      → Readable cr
      → Works (receive_request host sources raw a ph cr m log wire)
  unfolding receive_request
  receive_request-Works a ph cr m log wire v readable =
      at_entry (find_pas (a, ph.session) m.pas) refl
    where
      at_entry :
          (o : Option ℕ)
          → find_pas (a, ph.session) m.pas ≡ o
          → Works (elim o [
            | some id ↦ dispatch host sources raw id cr m log wire
            | none ↦
                let (id, n) = new_session host sources raw a ph.session m in
                dispatch host sources raw id cr n log wire
          ])
      at_entry none e =
          let (id, n) = new_session host sources raw a ph.session m in
          dispatch-Works id cr n log wire (new_session-IsValid a ph.session m v)
            (new_session-IsSession a ph.session m).0 readable
      at_entry (some id) e =
          let (j, same, entry) = find_pas-All (Peered m) (a, ph.session) id m.pas v.by_peer e in
          dispatch-Works id cr m log wire v entry.0 readable

  receive_other-Works :
      (ph : Header) (cr : Packet) (m : Mei) (log : Log) (wire : Wire)
      → IsValid m
      → Readable cr
      → Works (receive_other host sources raw ph cr m log wire)
  unfolding receive_other
  receive_other-Works ph cr m log wire v readable = at_entry (find_mim ph.session m.mim) refl
    where
      at_entry :
          (o : Option ℕ)
          → find_mim ph.session m.mim ≡ o
          → Works (elim o [
            | some id ↦ dispatch host sources raw id cr m log wire
            | none ↦ some (record { mei = m; log = log; wire = wire })
          ])
      at_entry none e = (record { mei = m; log = log; wire = wire }, refl, v)
      at_entry (some id) e =
          dispatch-Works id cr m log wire v
            (find_mim-All (Numbered m) ph.session id m.mim v.by_number e).0 readable

  pub process_packet-Works :
      (a : NetworkAddress) (cr : Packet) (m : Mei) (log : Log) (wire : Wire)
      → IsValid m
      → Readable cr
      → Works (process_packet host sources raw a cr m log wire)
  unfolding process_packet route
  process_packet-Works a cr m log wire v readable =
      let (ph, read, fetched, w) = fetch_header-total cr readable in
      let again : Readable (rewind read) = unfold rewind in (w.0, omega arith) in
      subst Works
        (sym (
          ap (λ (o : Option (Header × Packet)). o >>= route host sources raw a m log wire) fetched))
        (if-cases Works (ph.code == session_request && is_control ph.flags)
          (receive_request host sources raw a ph (rewind read) m log wire)
          (receive_other host sources raw ph (rewind read) m log wire)
          (λ _. receive_request-Works a ph (rewind read) m log wire v again)
          (λ _. receive_other-Works ph (rewind read) m log wire v again))

  -- Whatever recvfrom answers, ProcessReceive returns and keeps the invariant.
  pub process_receive-Works :
      (sys : System) (m : Mei) (log : Log) (wire : Wire)
      → IsValid m
      → Works (process_receive host sources raw sys m log wire)
  unfolding process_receive
  process_receive-Works sys m log wire v =
      let (r, a, bytes, log₁) = recv_from sys m.udpsck undefined_address packet_size log in
      if-cases Works (r == 0 || is_negative r) (some (record { mei = m; log = log₁; wire = wire }))
        (process_packet host sources raw a (arrival r bytes) m log₁ wire)
        (λ _. (record { mei = m; log = log₁; wire = wire }, refl, v))
        (λ _. process_packet-Works a (arrival r bytes) m log₁ wire v (received-Readable _))
