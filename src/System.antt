-- ===== src/System.antt =====
-- The system calls that src/Socket.cpp, src/TCPConnection.cpp and src/UDPSocket.cpp make. What the
-- system answers may depend on all calls before it and is a parameter, `System`.
use net_port.Common.{ℕ, ◌-◌, ◌^◌, Bool, not, List, ◌∷◌, ltb}
use net_port.Address.{NetworkAddress}

pub data SocketOption : Type 0 where
  reuse_address : SocketOption
  no_delay : SocketOption
  keep_alive : SocketOption
  keep_idle : SocketOption
  keep_count : SocketOption
  keep_interval : SocketOption

-- A handle is a bit pattern, and so is an int that the system returns.
pub data Call : Type 0 where
  open_socket : (af kind proto : ℕ) → Call
  set_option : (handle : ℕ) (option : SocketOption) (value : ℕ) → Call
  bind_to : (handle : ℕ) (a : NetworkAddress) (length : ℕ) → Call
  connect_to : (handle : ℕ) (a : NetworkAddress) (length : ℕ) → Call
  listen_at : (handle queue : ℕ) → Call
  accept_at : (handle : ℕ) → Call
  send_bytes : (handle : ℕ) (bytes : List ℕ) → Call
  recv_bytes : (handle size : ℕ) → Call
  recv_from_at : (handle size length : ℕ) → Call
  poll_sets : (handle : ℕ) (rd wr er : Bool) (sec microsec : ℕ) → Call
  get_flags : (handle : ℕ) → Call
  set_flags : (handle flags : ℕ) → Call
  shut_down : (handle : ℕ) → Call
  close_handle : (handle : ℕ) → Call

-- The calls made so far with their answers, the last one first.
abbrev pub Log : Type 0
Log = List (Call × ℕ)

pub record System : Type 0 where
  pub answer : Log → Call → ℕ
  -- errno is EAGAIN or EWOULDBLOCK
  pub would_block : Log → Bool
  -- the sets that a select leaves
  pub readable : Log → ℕ → Bool
  pub writable : Log → ℕ → Bool
  pub failed : Log → ℕ → Bool
  -- the address that accept and recvfrom fill in
  pub peer : Log → NetworkAddress
  -- the bytes that a receive writes
  pub arrived : Log → List ℕ

abbrev pub ask : System → Log → Call → ℕ × Log
ask sys log c = (sys.answer log c, (c, sys.answer log c) ∷ log)

-- INVALID_SOCKET and -1
abbrev pub minus_one : ℕ
minus_one = 2 ^ 32 - 1

abbrev pub is_negative : ℕ → Bool
is_negative n = not (ltb n (2 ^ 31))
