-- ===== src/Mei/Events.antt =====
-- Sequences of what happens to a system: calls, datagrams, ticks of the timer, and new connections.
use net_port.Common.{
  ℕ, refl, sym, ap, subst, List, [], ◌∷◌, Option, some, ◌>>=◌, ◌∙◌, if-cases, bit_and, ◌==◌,
}
use net_port.Address.{NetworkAddress}
use net_port.Udp.{Host}
use net_port.System.{System}
use net_port.Arc4.{Source}
use net_port.Transfer.{Transfer}
use net_port.Query.{query_read}
use net_port.Mei.{event, init, bind, close, Outcome, process_control, connect_new}
use net_port.Mei.Validity.{set_socket-IsValid, IsValid}
use net_port.Udp.Handles.{NeverZero, init-usable, bind-handle, close-usable}
use net_port.Mei.Steps.{Works, process_receive-Works}
use net_port.Mei.Runs.{process_control-IsValid, connect_new-Works}

pub data Event : Type 0 where
  -- init, with what InitSystem answers; bind; close
  inits : (af registered : ℕ) → Event
  binds : (a : NetworkAddress) → Event
  closes : Event
  -- the callback for conditions of the socket
  ready : (type : ℕ) → Event
  -- the control thread comes by
  tick : Event
  -- a new socket is connected to an address
  opens : (a : NetworkAddress) → Event

module _ (host : Host) (sources : ℕ → Source) (raw : Transfer) (sys : System) where
  unfoldable pub happen : Event → Outcome → Option Outcome
  happen (inits af registered) x =
      let (_, m, log) = init sys af registered x.mei x.log in some (record x { mei = m; log = log })
  happen (binds a) x =
      let (_, m, log) = bind sys a x.mei x.log in some (record x { mei = m; log = log })
  happen closes x = let (m, log) = close sys x.mei x.log in some (record x { mei = m; log = log })
  happen (ready type) x = event host sources raw sys type x.mei x.log x.wire
  happen tick x =
      let (m, wire) = process_control host sources raw x.mei x.wire in
      some (record x { mei = m; wire = wire })
  happen (opens a) x = connect_new host sources raw a x.mei x.log x.wire

  unfoldable happen_all : List Event → Outcome → Option Outcome
  happen_all [] x = some x
  happen_all (e ∷ es) x = happen e x >>= happen_all es

  pub happen-Works : NeverZero sys → (e : Event) (x : Outcome) → IsValid x.mei → Works (happen e x)
  unfolding happen init bind close event
  happen-Works never (inits af registered) x v =
      let usable = init-usable sys af x.mei.udpsck x.log never v.usable in
      (_, refl, set_socket-IsValid x.mei _ _ usable v)
  happen-Works never (binds a) x v =
      let same = bind-handle sys a x.mei.udpsck x.log in
      (_, refl, set_socket-IsValid x.mei _ x.mei.systemid (λ z. v.usable (sym same ∙ z)) v)
  happen-Works never closes x v =
      let usable = close-usable sys x.mei.udpsck x.log v.usable in
      (_, refl, set_socket-IsValid x.mei _ x.mei.systemid usable v)
  happen-Works never (ready type) x v =
      if-cases Works (bit_and type query_read == 0) (some x) _ (λ _. (x, refl, v))
        (λ _. process_receive-Works host sources raw sys x.mei x.log x.wire v)
  happen-Works never tick x v =
      let (m, wire) = process_control host sources raw x.mei x.wire in
      (
        record x { mei = m; wire = wire },
        refl,
        process_control-IsValid host sources raw x.mei x.wire v,
      )
  happen-Works never (opens a) x v = connect_new-Works host sources raw a x.mei x.log x.wire v

  -- With a system that never gives the handle 0, whatever datagrams arrive and whatever else the
  -- system and the network answer: every sequence of init, bind, close, events of the socket, timer
  -- ticks and new connections on a valid system runs without a fault, and leaves a valid system.
  happen_all-Works :
      (es : List Event) (x : Outcome) → NeverZero sys → IsValid x.mei → Works (happen_all es x)
  unfolding happen_all
  happen_all-Works [] x never v = (x, refl, v)
  happen_all-Works (e ∷ es) x never v =
      let (y, happens, w) = happen-Works never e x v in
      subst Works (sym (ap (λ (o : Option Outcome). o >>= happen_all es) happens))
        (happen_all-Works es y never w)
