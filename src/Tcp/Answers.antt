-- ===== src/Tcp/Answers.antt =====
-- What a connection answers: success and failure.
use net_port.System.{
  Call, shut_down, send_bytes, close_handle, System, Log, minus_one, is_negative, connect_to,
  set_option, reuse_address,
}
use net_port.Tcp.{Tcp, is_connected, init, ensure, connect, connect_open, send, recv}
use net_port.Common.{if-cases, ℕ, ◌≡◌, arith, Bool, true, List, ◌∷◌}
use net_port.Address.{NetworkAddress, address_length}
use net_port.Socket.{is_open, close}

-- The log ends in the two calls that made a connection, both with answer 0.
abbrev pub EndsConnected : NetworkAddress → ℕ → Log → Type 0
EndsConnected a h log =
    (before : Log) × (log
      ≡ (connect_to h a (address_length a), 0) ∷ (set_option h reuse_address 1, 0) ∷ before)

ensure-open :
    (sys : System) (af : ℕ) (c : Tcp) (log : Log)
    → (ensure sys af c log).0 ≡ true
    → is_open ((ensure sys af c log).1.socket) ≡ true
unfolding ensure init close
ensure-open sys af c log h = ground arith

connect_open-true :
    (sys : System) (a : NetworkAddress) (c : Tcp) (log : Log)
    → is_open c.socket ≡ true
    → (connect_open sys a c log).0 ≡ true
    → (is_connected ((connect_open sys a c log).1) ≡ true)
      × ((connect_open sys a c log).1.raddr ≡ a)
      × EndsConnected a ((connect_open sys a c log).1.socket.handle) ((connect_open sys a c log).2)
unfolding connect_open
connect_open-true sys a c log o h = (ground arith, ground arith, (log, ground arith))

-- If connect returns true, the connection holds a socket and is connected, its remote address is the
-- one given, and the last calls of the system were the option and the connection of that socket, both
-- with success.
pub connect-true :
    (sys : System) (a : NetworkAddress) (c : Tcp) (log : Log)
    → (connect sys a c log).0 ≡ true
    → (is_connected ((connect sys a c log).1) ≡ true)
      × ((connect sys a c log).1.raddr ≡ a)
      × EndsConnected a ((connect sys a c log).1.socket.handle) ((connect sys a c log).2)
unfolding connect
connect-true sys a c log =
    let (ok, c₁, log₁) = ensure sys a.af c log in
    if-cases
      (λ (x : Bool × Tcp × Log).
        x.0 ≡ true
        → (is_connected (x.1) ≡ true) × (x.1.raddr ≡ a) × EndsConnected a (x.1.socket.handle) (x.2))
      ok _ _ (λ e h. connect_open-true sys a c₁ log₁ (ensure-open sys a.af c log e) h)
      (λ _ h. ground arith)

-- The log has grown by a send with a negative answer and by the two calls that close its handle.
abbrev pub EndsInClose : ℕ → List ℕ → ℕ → Log → Log → Type 0
EndsInClose h bytes n before after =
    (x : ℕ) × (y : ℕ) × (after
      ≡ (close_handle h, x) ∷ (shut_down h, y) ∷ (send_bytes h bytes, n) ∷ before)

send-EndsInClose :
    (sys : System) (bytes : List ℕ) (c : Tcp) (log : Log)
    → is_connected c ≡ true
    → is_negative ((send sys bytes c log).0) ≡ true
    → let (n, _, log₁) = send sys bytes c log in EndsInClose c.socket.handle bytes n log log₁
unfolding send close
send-EndsInClose sys bytes c log o h =
    let sent : Call × ℕ =
      (send_bytes c.socket.handle bytes, sys.answer log (send_bytes c.socket.handle bytes)) in
    let x = sys.answer (sent ∷ log) (shut_down c.socket.handle) in
    let shut : Call × ℕ = (shut_down c.socket.handle, x) in
    (sys.answer (shut ∷ sent ∷ log) (close_handle c.socket.handle), x, ground arith)

-- After a send of a connected connection with a negative result, the handle that it held has been
-- shut down and closed, with no other call of the system behind the send, and the connection holds no
-- socket; a second send and a recv then return -1 and make no call of the system.
pub send-failed :
    (sys : System) (bytes again : List ℕ) (size : ℕ) (c : Tcp) (log : Log)
    → is_connected c ≡ true
    → is_negative ((send sys bytes c log).0) ≡ true
    → let (n, c₁, log₁) = send sys bytes c log in
      EndsInClose c.socket.handle bytes n log log₁
      × (c₁.socket.handle ≡ minus_one)
      × (send sys again c₁ log₁ ≡ (minus_one, c₁, log₁))
      × (recv sys size c₁ log₁ ≡ (minus_one, c₁, log₁))
unfolding send recv close
send-failed sys bytes again size c log o h =
    (send-EndsInClose sys bytes c log o h, ground arith, ground arith, ground arith)
