-- ===== src/Mei/Runs.antt =====
-- What the timer and a new connection keep.
use net_port.Mei.{
  control_step, Mei, set_transfer, draw, new_socket, control_loop, process_control, connect,
  connect_new, insert_mim,
}
use net_port.Common.{
  ℕ, ◌≡◌, ◌∙◌, refl, sym, ap, subst, true, List, [], ◌∷◌, ◌++◌, Option, some, ◌>>=◌, All, arith,
  if-cases,
}
use net_port.Address.{NetworkAddress}
use net_port.Udp.{Host, Wire}
use net_port.System.{Log}
use net_port.Arc4.{Source}
use net_port.Transfer.{Transfer, Received, handle_interval, seqlocal}
use net_port.Transfer.Retry.{IsKept}
use net_port.Transfer.Send.{All-last}
use net_port.Transfer.Handshake.{connect-Asked}
use net_port.Transfer.Total.{handle_interval-Stays}
use net_port.Mei.Lookup.{insert_mim-All}
use net_port.Mei.Sessions.{
  eq_self, IsSession, IsSound, Extends, Extends-refl, Extends-trans, set_transfer-Extends,
  Agrees-Extends,
}
use net_port.Mei.Validity.{
  IsValid, Numbered, listed-Extends, Numbered-Extends, Peered-Extends, Extends-IsValid,
}
use net_port.Mei.Steps.{Works}

-- The step changes transfers only, and keeps the sessions.
record Keeps (m n : Mei) : Type 0 where
  extends : Extends m n
  socket : n.udpsck ≡ m.udpsck
  list : n.mis ≡ m.mis
  numbers : n.mim ≡ m.mim
  peers : n.pas ≡ m.pas

Keeps-refl : (m : Mei) → Keeps m m
Keeps-refl m = record {
  extends = Extends-refl m;
  socket = refl;
  list = refl;
  numbers = refl;
  peers = refl;
}

Keeps-trans : (m n o : Mei) → Keeps m n → Keeps n o → Keeps m o
Keeps-trans m n o a b = record {
  extends = Extends-trans m n o a.extends b.extends;
  socket = b.socket ∙ a.socket;
  list = b.list ∙ a.list;
  numbers = b.numbers ∙ a.numbers;
  peers = b.peers ∙ a.peers;
}

module _ (host : Host) (sources : ℕ → Source) (raw : Transfer) where
  control_step-Keeps :
      (id : ℕ) (m : Mei) (wire : Wire)
      → IsSession m id
      → Keeps m (control_step host sources raw id m wire).0
  unfolding control_step
  control_step-Keeps id m wire v =
      let r = handle_interval host m.udpsck (m.transfers id) wire in
      let stays =
        handle_interval-Stays host m.udpsck (m.transfers id) v.sound.linked v.sound.kept wire in
      if-cases (λ (x : Mei × Wire). Keeps m x.0) (m.alive id) (set_transfer id r.transfer m, r.wire)
        (m, wire)
        (λ _. record {
          extends = set_transfer-Extends m id r.transfer stays;
          socket = refl;
          list = refl;
          numbers = refl;
          peers = refl;
        })
        (λ _. Keeps-refl m)

  control_loop-Keeps :
      (ids : List ℕ) (m : Mei) (wire : Wire)
      → All (IsSession m) ids
      → Keeps m (control_loop host sources raw ids m wire).0
  unfolding control_loop
  control_loop-Keeps [] m wire vs = Keeps-refl m
  control_loop-Keeps (id ∷ ids) m wire (v, vs) =
      let (n, wire₁) = control_step host sources raw id m wire in
      let first = control_step-Keeps id m wire v in
      Keeps-trans m n (control_loop host sources raw ids n wire₁).0 first
        (control_loop-Keeps ids n wire₁ (listed-Extends m n first.extends ids vs))

  pub process_control-IsValid :
      (m : Mei) (wire : Wire) → IsValid m → IsValid (process_control host sources raw m wire).0
  unfolding process_control
  process_control-IsValid m wire v =
      let k = control_loop-Keeps m.mis m wire v.listed in
      Extends-IsValid m (control_loop host sources raw m.mis m wire).0 k.extends v k.socket k.list
        k.numbers k.peers

  pub new_socket-empty :
      (m : Mei) → let (id, n) = new_socket host sources raw m in (n.transfers id).rt ≡ []
  unfolding new_socket
  new_socket-empty m = rw (eq_self m.next) refl

  -- The new session `id` with the transfer `u`, entered in the list and under its number.
  abbrev pub entered : ℕ → ℕ → Transfer → Mei → Mei
  entered id lsid u m = record (set_transfer id u m) {
    mis = id ∷ m.mis;
    mim = insert_mim lsid id m.mim;
  }

  entered-IsValid :
      (m : Mei) (lsid : ℕ) (u : Transfer)
      → IsValid m
      → IsSound u
      → u.lsess ≡ lsid
      → let (id, m₁) = new_socket host sources raw m in
        IsValid (entered id lsid u (draw host sources raw m₁).1)
  unfolding new_socket
  entered-IsValid m lsid u v sound named =
      let (id, m₁) = new_socket host sources raw m in
      let n = entered id lsid u (draw host sources raw m₁).1 in
      let x = Agrees-Extends m n (record {
        grown = λ j h. omega arith;
        living = λ j h. ground arith;
        same = λ j h. ground arith;
      }) in
      let session : IsSession n id = record {
        made = omega arith;
        alive = rw (eq_self m.next) refl;
        sound = rw (eq_self m.next) sound;
      } in
      record {
        usable = v.usable;
        listed = (session, listed-Extends m n x m.mis v.listed);
        by_number =
            insert_mim-All (Numbered n) lsid id m.mim (session, rw (eq_self m.next) named)
              (Numbered-Extends m n x m.mim v.by_number);
        by_peer = Peered-Extends m n x m.pas v.by_peer;
      }

  pub connect_new-Works :
      (a : NetworkAddress) (m : Mei) (log : Log) (wire : Wire)
      → IsValid m
      → Works (connect_new host sources raw a m log wire)
  unfolding connect_new connect
  connect_new-Works a m log wire v =
      let (id, m₁) = new_socket host sources raw m in
      let (lsid, m₂) = draw host sources raw m₁ in
      let t : Transfer = record (m₂.transfers id) { sys = true; remote = a; lsess = lsid } in
      let (r, connects, asked) = connect-Asked host m₂.udpsck t v.usable refl wire in
      let empty : t.rt ≡ [] = new_socket-empty m in
      let kept : All IsKept (t.rt ++ asked.last ∷ []) =
        All-last t.rt asked.last (subst (All IsKept) (sym empty) tt) asked.kept in
      let sound : IsSound r.transfer = record {
        linked = ap (λ (u : Transfer). u.sys) asked.keeps ∙ (unfold seqlocal in refl);
        kept = subst (λ (u : Transfer). All IsKept u.rt) (sym asked.keeps) kept;
      } in
      (
        record { mei = entered id lsid r.transfer m₂; log = log; wire = r.wire },
        ap
            (λ (o : Option Received). o >>= (λ s.
              some (record { mei = entered id lsid s.transfer m₂; log = log; wire = s.wire })))
            connects,
        entered-IsValid m lsid r.transfer v sound
            (ap (λ (u : Transfer). u.lsess) asked.keeps ∙ (unfold seqlocal in refl)),
      )
