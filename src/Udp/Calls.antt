-- ===== src/Udp/Calls.antt =====
-- The other calls of `UDPSocket` (src/UDPSocket.cpp): init, bind, connect and recv_from. The guards
-- test the handle against 0 where Socket::close tests it against INVALID_SOCKET.
use net_port.Common.{ℕ, Bool, true, false, not, List, [], ◌==◌, if◌then◌else◌}
use net_port.Address.{NetworkAddress, address_length, filled, undefined_address}
use net_port.System.{
  System, Log, ask, minus_one, is_negative, open_socket, set_option, reuse_address, bind_to,
  connect_to, recv_from_at, shut_down, close_handle,
}
use net_port.Udp.{UdpSocket}

-- UDPSocket()
abbrev pub new_udp : UdpSocket
new_udp = record { handle = minus_one; bound = false; laddr = undefined_address }

-- Socket::close()
unfoldable pub close : System → UdpSocket → Log → UdpSocket × Log
close sys s log =
    if s.handle == minus_one
    then (s, log)
    else (let (_, log₁) = ask sys log (shut_down s.handle) in
        let (_, log₂) = ask sys log₁ (close_handle s.handle) in
        (record s { handle = minus_one }, log₂))

abbrev pub datagram_kind : ℕ
datagram_kind = 2

abbrev pub udp_protocol : ℕ
udp_protocol = 17

unfoldable pub init : System → ℕ → UdpSocket → Log → Bool × UdpSocket × Log
init sys af s log =
    let (s₁, log₁) = if s.handle == 0 then (s, log) else close sys s log in
    let s₂ : UdpSocket = record s₁ { laddr = record s₁.laddr { af = af } } in
    let (h, log₂) = ask sys log₁ (open_socket af datagram_kind udp_protocol) in
    if h == minus_one then (false, s₂, log₂) else (true, record s₂ { handle = h }, log₂)

unfoldable pub bind : System → NetworkAddress → UdpSocket → Log → Bool × UdpSocket × Log
bind sys local s log =
    let (refused, log₁) = ask sys log (set_option s.handle reuse_address 1) in
    let (taken, log₂) = ask sys log₁ (bind_to s.handle local (address_length local)) in
    if s.handle == 0
    then (false, s, log)
    else (if not (refused == 0)
        then (false, s, log₁)
        else (if not (taken == 0)
            then (false, s, log₂)
            else (true, record s { laddr = local; bound = true }, log₂)))

unfoldable pub connect : System → NetworkAddress → UdpSocket → Log → Bool × Log
connect sys remote s log =
    let (failed, log₁) = ask sys log (connect_to s.handle remote (address_length remote)) in
    if s.handle == 0 then (false, log) else (failed == 0, log₁)

-- The count or -1, the address and the bytes; 0 where the call would block.
unfoldable pub recv_from :
    System → UdpSocket → NetworkAddress → ℕ → Log → ℕ × NetworkAddress × List ℕ × Log
recv_from sys s r size log =
    let r₁ : NetworkAddress = record r { af = s.laddr.af } in
    let (i, log₁) = ask sys log (recv_from_at s.handle size (address_length r₁)) in
    if s.handle == 0
    then (minus_one, r, [], log)
    else (if is_negative i
        then ((if sys.would_block log₁ then 0 else i), r₁, [], log₁)
        else (i, filled r₁ (sys.peer log₁), sys.arrived log₁, log₁))

unfoldable is_bound : UdpSocket → Bool
is_bound s = s.bound

-- The size of the buffer of recv_from into a string
abbrev datagram_room : ℕ
datagram_room = 9000

-- recv_from into the string `text`, which is replaced if something was received
unfoldable recv_datagram :
    System → UdpSocket → NetworkAddress → List ℕ → Log → ℕ × NetworkAddress × List ℕ × Log
unfolding recv_from
recv_datagram sys s r text log =
    let (i, r₁, bytes, log₁) = recv_from sys s r datagram_room log in
    (i, r₁, if i == 0 then text else (if is_negative i then text else bytes), log₁)
