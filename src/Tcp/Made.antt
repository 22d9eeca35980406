-- ===== src/Tcp/Made.antt =====
-- The other constructors of `TCPConnection`, its select without a time, and its recv into a string
-- (src/TCPConnection.cpp). CheckState does nothing on Linux.
use net_port.Common.{ℕ, zero, suc, Bool, true, ◌||◌, not, List, [], ◌∷◌, ◌==◌, if◌then◌else◌}
use net_port.Address.{NetworkAddress}
use net_port.System.{System, Log, minus_one, is_negative}
use net_port.Socket.{socket_of, is_open}
use net_port.Tcp.{Tcp, ConnectionState, closed, listening, new_tcp, move_tcp, bind, recv, select}

-- TCPConnection(socket_t, int, CONNECTIONSTATE); with two arguments the state is closed.
unfoldable pub tcp_in_state : ℕ → ConnectionState → Tcp
tcp_in_state h state = record new_tcp { socket = socket_of h; state = state }

unfoldable pub tcp_of_handle : ℕ → Tcp
unfolding tcp_in_state
tcp_of_handle h = tcp_in_state h closed

-- TCPConnection(socket_t, const NetworkAddress &, bool)
unfoldable pub bound_tcp : ℕ → NetworkAddress → Bool → Tcp
bound_tcp h la lsn = record new_tcp {
  socket = socket_of h;
  bound = true;
  laddr = la;
  state = if lsn then listening else closed;
}

-- TCPConnection(TCPConnection &&): the new connection and what is left of the other
unfoldable pub moved_tcp : Tcp → Tcp × Tcp
moved_tcp source = move_tcp new_tcp source

-- TCPConnection(const NetworkAddress &), where the state and the flag are what the memory `raw` holds
unfoldable pub tcp_at : System → NetworkAddress → Tcp → Log → Tcp × Log
tcp_at sys la raw log =
    let fresh : Tcp = record new_tcp { state = raw.state; bound = raw.bound } in
    let (_, c, log₁) = bind sys la fresh log in (c, log₁)

-- select without a time
unfoldable pub select_now : System → (rd wr er : Bool) → Tcp → Log → ℕ × Log
select_now sys rd wr er c log = select sys rd wr er 0 0 c log

-- resize of a string: it is cut, or filled with zeros.
unfoldable pub resized : ℕ → List ℕ → List ℕ
resized zero s = []
resized (suc n) [] = 0 ∷ resized n []
resized (suc n) (c ∷ s) = c ∷ resized n s

-- The first `n` of the bytes given are stored over the string.
unfoldable pub overwritten : ℕ → List ℕ → List ℕ → List ℕ
overwritten (suc n) (b ∷ bs) (c ∷ s) = b ∷ overwritten n bs s
overwritten _ _ s = s

-- recv(std::string &, int): the result and the string
unfoldable pub recv_text : System → ℕ → List ℕ → Tcp → Log → ℕ × List ℕ × Tcp × Log
unfolding resized overwritten
recv_text sys size s c log =
    let (i, c₁, log₁) = recv sys size c log in
    let room = resized size s in
    if not (is_open c.socket)
    then (minus_one, s, c, log)
    else (if i == 0 || is_negative i
        then (i, room, c₁, log₁)
        else (i, resized i (overwritten i (sys.arrived log₁) room), c₁, log₁))
