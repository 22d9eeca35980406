-- ===== src/Tcp.antt =====
-- `TCPConnection` (include/net/TCPConnection.hpp, src/TCPConnection.cpp). Errors are the source's:
-- false, or -1 as a bit pattern. What the system answers is the parameter `sys`.
pub mod Balance
pub mod Life
pub mod Answers
pub mod Release
pub mod Made
mod Tests
use net_port.Address.{filled, NetworkAddress, address_length, undefined_address}
use net_port.System.{
  keep_interval, keep_count, connect_to, bind_to, reuse_address, keep_idle, set_option, send_bytes,
  recv_bytes, poll_sets, open_socket, no_delay, listen_at, keep_alive, accept_at, System, Log, Call,
  SocketOption, ask, minus_one, is_negative,
}
use net_port.Common.{
  ℕ, zero, suc, ◌+◌, ◌-◌, ◌*◌, ◌^◌, ◌%◌, ◌≡◌, refl, arith, Bool, true, false, ◌||◌, ◌&&◌, not, List,
  [], ◌∷◌, Option, none, some, ◌==◌, ltb, if◌then◌else◌, bit_and, bit_or, bit_xor,
}
use net_port.Socket.{Socket, no_socket, socket_of, is_open, close, move_to}

-- `CONNECTIONSTATE`
pub data ConnectionState : Type 0 where
  closed : ConnectionState
  listening : ConnectionState
  connecting : ConnectionState
  connected : ConnectionState
  remote_closing : ConnectionState
  error : ConnectionState

abbrev pub is_closed_state : ConnectionState → Bool
is_closed_state closed = true
is_closed_state _ = false

abbrev pub is_listening_state : ConnectionState → Bool
is_listening_state listening = true
is_listening_state _ = false

abbrev pub is_connected_state : ConnectionState → Bool
is_connected_state connected = true
is_connected_state _ = false

pub record Tcp : Type 0 where
  pub socket : Socket
  pub state : ConnectionState
  pub bound : Bool
  pub laddr : NetworkAddress
  pub raddr : NetworkAddress

-- TCPConnection()
abbrev pub new_tcp : Tcp
new_tcp = record {
  socket = no_socket;
  state = closed;
  bound = false;
  laddr = undefined_address;
  raddr = undefined_address;
}

-- The connection that accept makes of a handle.
abbrev pub accepted_tcp : ℕ → NetworkAddress → NetworkAddress → Tcp
accepted_tcp h la ra = record {
  socket = socket_of h;
  state = connected;
  bound = true;
  laddr = la;
  raddr = ra;
}

-- operator=(TCPConnection &&): the new value of the target and of the source
unfoldable pub move_tcp : Tcp → Tcp → Tcp × Tcp
move_tcp target source =
    let (s, rest) = move_to target.socket source.socket in
    (record source { socket = s }, record source { socket = rest; state = closed; bound = false })

abbrev pub is_connected : Tcp → Bool
is_connected c = is_open c.socket && is_connected_state c.state

abbrev pub is_listening : Tcp → Bool
is_listening c = is_open c.socket && is_listening_state c.state

-- Socket::close() on a connection, which keeps the other members
abbrev pub close_socket : System → Tcp → Log → Tcp × Log
close_socket sys c log = let (s, log₁) = close sys c.socket log in (record c { socket = s }, log₁)

abbrev pub stream_kind : ℕ
stream_kind = 1

abbrev pub tcp_protocol : ℕ
tcp_protocol = 6

-- init(ADDRTYPE), and init(const NetworkAddress &) with the family of the address
unfoldable pub init : System → ℕ → Tcp → Log → Bool × Tcp × Log
init sys af c log =
    let (c₁, log₁) = if is_open c.socket then close_socket sys c log else (c, log) in
    let c₂ : Tcp = record c₁ { laddr = record c₁.laddr { af = af } } in
    let (h, log₂) = ask sys log₁ (open_socket af stream_kind tcp_protocol) in
    if h == minus_one
    then (false, c₂, log₂)
    else (true, record c₂ { socket = record c₂.socket { handle = h }; state = closed }, log₂)

-- The first lines of bind and connect: a socket is opened if there is none.
unfoldable pub ensure : System → ℕ → Tcp → Log → Bool × Tcp × Log
ensure sys af c log = if is_open c.socket then (true, c, log) else init sys af c log

-- The rest of bind, from setsockopt on
unfoldable pub bind_open : System → NetworkAddress → Tcp → Log → Bool × Tcp × Log
bind_open sys local c log =
    let (refused, log₁) = ask sys log (set_option c.socket.handle reuse_address 1) in
    let (taken, log₂) = ask sys log₁ (bind_to c.socket.handle local (address_length local)) in
    if not (refused == 0)
    then (false, c, log₁)
    else (if not (taken == 0)
        then (false, c, log₂)
        else (true, record c { laddr = local; bound = true }, log₂))

unfoldable pub bind : System → NetworkAddress → Tcp → Log → Bool × Tcp × Log
bind sys local c log =
    let (ok, c₁, log₁) = ensure sys local.af c log in
    if ok then bind_open sys local c₁ log₁ else (false, c₁, log₁)

-- The rest of connect, from setsockopt on
unfoldable pub connect_open : System → NetworkAddress → Tcp → Log → Bool × Tcp × Log
connect_open sys remote c log =
    let (refused, log₁) = ask sys log (set_option c.socket.handle reuse_address 1) in
    let (failed, log₂) = ask sys log₁ (connect_to c.socket.handle remote (address_length remote)) in
    if not (refused == 0)
    then (false, c, log₁)
    else (if not (failed == 0)
        then (false, c, log₂)
        else (true, record c { raddr = remote; state = connected; bound = true }, log₂))

unfoldable pub connect : System → NetworkAddress → Tcp → Log → Bool × Tcp × Log
connect sys remote c log =
    let (ok, c₁, log₁) = ensure sys remote.af c log in
    if ok then connect_open sys remote c₁ log₁ else (false, c₁, log₁)

-- ::listen and what follows it
unfoldable pub listen_open : System → ℕ → Tcp → Log → Bool × Tcp × Log
listen_open sys queue c log =
    let (refused, log₁) = ask sys log (listen_at c.socket.handle queue) in
    if not (refused == 0) then (false, c, log₁) else (true, record c { state = listening }, log₁)

-- listen(const NetworkAddress &, int)
unfoldable pub listen_on : System → NetworkAddress → ℕ → Tcp → Log → Bool × Tcp × Log
listen_on sys local queue c log =
    let (ok, c₁, log₁) =
      if not (is_open c.socket) || not c.bound then bind sys local c log else (true, c, log) in
    if ok then listen_open sys queue c₁ log₁ else (false, c₁, log₁)

-- listen(int)
unfoldable pub listen : System → ℕ → Tcp → Log → Bool × Tcp × Log
listen sys queue c log =
    if is_open c.socket && (c.bound && is_closed_state c.state)
    then listen_open sys queue c log
    else (false, c, log)

-- The socket is closed and the result returned.
abbrev after_failure : System → ℕ → Tcp → Log → ℕ × Tcp × Log
after_failure sys n c log = let (c₁, log₁) = close_socket sys c log in (n, c₁, log₁)

-- send: the count or -1, and the socket is closed after a failure
unfoldable pub send : System → List ℕ → Tcp → Log → ℕ × Tcp × Log
send sys bytes c log =
    let (n, log₁) = ask sys log (send_bytes c.socket.handle bytes) in
    if is_connected c
    then (if is_negative n then after_failure sys n c log₁ else (n, c, log₁))
    else (minus_one, c, log)

-- net::recv: a call that would block counts as 0 bytes
abbrev pub recv_count : System → Log → ℕ → ℕ
recv_count sys log n = if (n == 0 || is_negative n) && sys.would_block log then 0 else n

unfoldable pub recv : System → ℕ → Tcp → Log → ℕ × Tcp × Log
recv sys size c log =
    let (n, log₁) = ask sys log (recv_bytes c.socket.handle size) in
    let i = recv_count sys log₁ n in
    if is_connected c
    then (if is_negative i then after_failure sys i c log₁ else (i, c, log₁))
    else (minus_one, c, log)

abbrev pub bit_if : Bool → ℕ → ℕ
bit_if b n = if b then n else 0

-- fd_set, as its test FD_ISSET, with FD_ZERO and FD_SET
abbrev FdSet : Type 0
FdSet = ℕ → Bool

abbrev fd_zero : FdSet
fd_zero x = false

abbrev fd_set : ℕ → FdSet → FdSet
fd_set h set x = if x == h then true else set x

-- What the system's select makes of a set: one that is not passed, which is NULL, stays.
abbrev fd_after : (passed : Bool) (answer before : FdSet) → FdSet
fd_after passed answer before x = if passed then answer x else before x

-- select
unfoldable pub select : System → (rd wr er : Bool) (sec microsec : ℕ) → Tcp → Log → ℕ × Log
select sys rd wr er sec microsec c log =
    let h = c.socket.handle in
    let before = fd_set h fd_zero in
    let (i, log₁) = ask sys log (poll_sets h rd wr er sec microsec) in
    let fdr = fd_after rd (sys.readable log₁) before in
    let fdw = fd_after wr (sys.writable log₁) before in
    let fde = fd_after er (sys.failed log₁) before in
    if not (is_open c.socket)
    then (0, log)
    else (if i == 0 || i == minus_one
        then (0, log₁)
        else (bit_or (bit_or (bit_if (fdr h) 1) (bit_if (fdw h) 2)) (bit_if (fde h) 4), log₁))

-- is_available
unfoldable pub is_available : System → Tcp → Log → Bool × Log
is_available sys c log =
    let (n, log₁) = select sys true false false 0 0 c log in
    if is_open c.socket then (not (n == 0), log₁) else (false, log)

-- accept: the new connection, without a socket where it fails
unfoldable pub accept : System → Tcp → Log → Tcp × Log
accept sys c log =
    let (h, log₁) = ask sys log (accept_at c.socket.handle) in
    if is_listening_state c.state
    then (if h == minus_one
        then (new_tcp, log₁)
        else (accepted_tcp h c.laddr (filled undefined_address (sys.peer log₁)), log₁))
    else (new_tcp, log)

-- One setsockopt; true if it succeeds
abbrev pub try_option : System → SocketOption → ℕ → Tcp → Log → Bool × Log
try_option sys option value c log =
    let (refused, log₁) = ask sys log (set_option c.socket.handle option value) in
    (refused == 0, log₁)

abbrev pub as_flag : Bool → ℕ
as_flag b = if b then 1 else 0

-- Options set in turn up to the first failure
unfoldable pub try_options : System → List (SocketOption × ℕ) → Tcp → Log → Bool × Log
try_options sys [] c log = (true, log)
try_options sys ((option, value) ∷ rest) c log =
    let (ok, log₁) = try_option sys option value c log in
    let done = try_options sys rest c log₁ in if ok then done else (false, log₁)

unfoldable pub set_nodelay : System → Bool → Tcp → Log → Bool × Log
set_nodelay sys enable c log =
    if is_open c.socket
    then try_options sys ((no_delay, as_flag enable) ∷ []) c log
    else (false, log)

unfoldable pub set_keepalive : System → Bool → Tcp → Log → Bool × Log
set_keepalive sys enable c log =
    if is_open c.socket
    then try_options sys ((keep_alive, as_flag enable) ∷ []) c log
    else (false, log)

-- set_keepalive with its times, as compiled on Linux
unfoldable pub set_keepalive_times :
    System → Bool → (time intvl probes : ℕ) → Tcp → Log → Bool × Log
set_keepalive_times sys enable time intvl probes c log =
    if is_open c.socket
    then (try_options sys
        ((keep_alive, as_flag enable)
          ∷ (keep_idle, time)
          ∷ (keep_count, probes)
          ∷ (keep_interval, intvl)
          ∷ [])
        c log)
    else (false, log)
