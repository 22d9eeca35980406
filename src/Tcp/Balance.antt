-- ===== src/Tcp/Balance.antt =====
-- The handles of a connection: every handle that the system gave is closed once, or still held.
use net_port.Common.{if-cases, ℕ, ◌+◌, ◌≡◌, arith, Bool, List, [], ◌∷◌, ◌==◌, if◌then◌else◌}
use net_port.Address.{NetworkAddress}
use net_port.System.{System, Log, Call, minus_one, open_socket, close_handle}
use net_port.Socket.{is_open, close}
use net_port.Tcp.{
  Tcp, init, ensure, bind, bind_open, connect, connect_open, listen_open, send, recv,
}

abbrev pub rest_of : {A : Type 0} → A × Tcp × Log → Tcp × Log
rest_of (_, c, log) = (c, log)

-- The sockets that the system opened, and those closed.
abbrev opened_by : Call → ℕ → ℕ
opened_by (open_socket _ _ _) h = if h == minus_one then 0 else 1
opened_by _ _ = 0

abbrev closed_by : Call → ℕ
closed_by (close_handle _) = 1
closed_by _ = 0

abbrev pub opened_count : Log → ℕ
opened_count [] = 0
opened_count ((c, n) ∷ log) = opened_by c n + opened_count log

abbrev pub closed_count : Log → ℕ
closed_count [] = 0
closed_count ((c, _) ∷ log) = closed_by c + closed_count log

abbrev pub held_count : Tcp → ℕ
held_count c = if is_open c.socket then 1 else 0

-- The sockets opened are those closed and the one held.
abbrev pub IsBalanced : Tcp × Log → Type 0
IsBalanced (c, log) = opened_count log ≡ closed_count log + held_count c

pub init-IsBalanced :
    (sys : System) (af : ℕ) (c : Tcp) (log : Log)
    → IsBalanced (c, log)
    → IsBalanced (rest_of (init sys af c log))
unfolding init close
init-IsBalanced sys af c log h = ground arith

ensure-IsBalanced :
    (sys : System) (af : ℕ) (c : Tcp) (log : Log)
    → IsBalanced (c, log)
    → IsBalanced (rest_of (ensure sys af c log))
unfolding ensure
ensure-IsBalanced sys af c log h = ground (arith, init-IsBalanced sys af c log h)

bind_open-IsBalanced :
    (sys : System) (a : NetworkAddress) (c : Tcp) (log : Log)
    → IsBalanced (c, log)
    → IsBalanced (rest_of (bind_open sys a c log))
unfolding bind_open
bind_open-IsBalanced sys a c log h = ground arith

connect_open-IsBalanced :
    (sys : System) (a : NetworkAddress) (c : Tcp) (log : Log)
    → IsBalanced (c, log)
    → IsBalanced (rest_of (connect_open sys a c log))
unfolding connect_open
connect_open-IsBalanced sys a c log h = ground arith

pub listen_open-IsBalanced :
    (sys : System) (queue : ℕ) (c : Tcp) (log : Log)
    → IsBalanced (c, log)
    → IsBalanced (rest_of (listen_open sys queue c log))
unfolding listen_open
listen_open-IsBalanced sys queue c log h = ground arith

pub send-IsBalanced :
    (sys : System) (bytes : List ℕ) (c : Tcp) (log : Log)
    → IsBalanced (c, log)
    → IsBalanced (rest_of (send sys bytes c log))
unfolding send close
send-IsBalanced sys bytes c log h = ground arith

pub recv-IsBalanced :
    (sys : System) (size : ℕ) (c : Tcp) (log : Log)
    → IsBalanced (c, log)
    → IsBalanced (rest_of (recv sys size c log))
unfolding recv close
recv-IsBalanced sys size c log h = ground arith

pub bind-IsBalanced :
    (sys : System) (a : NetworkAddress) (c : Tcp) (log : Log)
    → IsBalanced (c, log)
    → IsBalanced (rest_of (bind sys a c log))
unfolding bind
bind-IsBalanced sys a c log h =
    let (ok, c₁, log₁) = ensure sys a.af c log in
    let h₁ : IsBalanced (c₁, log₁) = ensure-IsBalanced sys a.af c log h in
    if-cases (λ (x : Bool × Tcp × Log). IsBalanced (rest_of x)) ok _ _
      (λ _. bind_open-IsBalanced sys a c₁ log₁ h₁) (λ _. h₁)

pub connect-IsBalanced :
    (sys : System) (a : NetworkAddress) (c : Tcp) (log : Log)
    → IsBalanced (c, log)
    → IsBalanced (rest_of (connect sys a c log))
unfolding connect
connect-IsBalanced sys a c log h =
    let (ok, c₁, log₁) = ensure sys a.af c log in
    let h₁ : IsBalanced (c₁, log₁) = ensure-IsBalanced sys a.af c log h in
    if-cases (λ (x : Bool × Tcp × Log). IsBalanced (rest_of x)) ok _ _
      (λ _. connect_open-IsBalanced sys a c₁ log₁ h₁) (λ _. h₁)
