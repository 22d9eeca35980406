-- ===== src/Udp.antt =====
-- `UDPSocket` (include/net/UDPSocket.hpp, src/UDPSocket.cpp) as far as the transfer layer sends
-- through it. A handle is its bit pattern. What the system answers to a call may depend on
-- all calls before it, and is a parameter, `Host`.
pub mod Calls
pub mod Handles
mod Tests
use net_port.Common.{ℕ, ◌-◌, ◌^◌, Bool, false, List, ◌∷◌, ◌==◌, if◌then◌else◌}
use net_port.Buffer.{Buffer}
use net_port.Address.{NetworkAddress}

-- A pointer to bytes and their number.
pub record Datagram : Type 0 where
  pub bytes : Buffer
  pub size : ℕ

pub record UdpSocket : Type 0 where
  pub handle : ℕ
  pub bound : Bool
  pub laddr : NetworkAddress

-- INVALID_SOCKET, -1 as a bit pattern
abbrev pub invalid_socket : ℕ
invalid_socket = 2 ^ 32 - 1

-- A call of sendto, and whether it returned a count.
pub record SendCall : Type 0 where
  pub handle : ℕ
  pub to : NetworkAddress
  pub payload : Datagram
  pub accepted : Bool

-- The calls made so far, the last one first.
abbrev pub Wire : Type 0
Wire = List SendCall

-- Whether the system takes a datagram, after the calls made so far.
abbrev pub Host : Type 0
Host = Wire → ℕ → NetworkAddress → Datagram → Bool

-- send_to: false stands for a negative result.
unfoldable pub send_to : Host → UdpSocket → NetworkAddress → Datagram → Wire → Bool × Wire
send_to host s to payload wire =
    if s.handle == 0
    then (false, wire)
    else (let ok = host wire s.handle to payload in
        (ok, record { handle = s.handle; to = to; payload = payload; accepted = ok } ∷ wire))
