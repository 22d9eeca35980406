-- ===== src/Socket.antt =====
-- `Socket` (include/net/network_common.hpp, src/Socket.cpp). A copy is deleted, so no two sockets
-- share a counter, and `rhcount` is the number behind the pointer.
use net_port.System.{
  set_flags, close_handle, shut_down, send_bytes, get_flags, System, Log, ask, minus_one,
}
use net_port.Common.{
  List, ◌≡◌, arith, ℕ, ◌-◌, Bool, true, false, not, Option, none, some, ◌==◌, if◌then◌else◌, bit_or,
  bit_xor,
}

pub record Socket : Type 0 where
  pub handle : ℕ
  pub rhcount : Option ℕ

-- Socket()
abbrev pub no_socket : Socket
no_socket = record { handle = minus_one; rhcount = none }

-- Socket(socket_t)
abbrev pub socket_of : ℕ → Socket
socket_of h = record { handle = h; rhcount = some 1 }

-- operator bool
abbrev pub is_open : Socket → Bool
is_open s = not (s.handle == minus_one)

-- close()
unfoldable pub close : System → Socket → Log → Socket × Log
close sys s log =
    if is_open s
    then (let (_, log₁) = ask sys log (shut_down s.handle) in
        let (_, log₂) = ask sys log₁ (close_handle s.handle) in
        (record s { handle = minus_one }, log₂))
    else (s, log)

-- close(socket_t &) of src/network.cpp: the handle that is left
unfoldable close_native : System → ℕ → Log → ℕ × Log
close_native sys h log =
    if h == minus_one
    then (h, log)
    else (let (_, log₁) = ask sys log (shut_down h) in
        let (_, log₂) = ask sys log₁ (close_handle h) in (minus_one, log₂))

-- send(socket_t, const char *, int) of src/network.cpp
unfoldable send_native : System → ℕ → List ℕ → Log → ℕ × Log
send_native sys h bytes log = ask sys log (send_bytes h bytes)

-- The close of a socket is that of its handle.
close-close_native :
    (sys : System) (s : Socket) (log : Log)
    → close sys s log
      ≡ (record s { handle = (close_native sys s.handle log).0 }, (close_native sys s.handle log).1)
unfolding close close_native
close-close_native sys s log = ground arith

-- ~Socket(): the counter goes down, and at 0 the socket is closed.
unfoldable pub destroy : System → Socket → Log → Socket × Log
destroy sys s log = elim s.rhcount [
  | none ↦ (s, log)
  | some n ↦
      if n - 1 == 0
      then close sys (record s { rhcount = none }) log
      else (record s { rhcount = some (n - 1) }, log)
]

-- operator=(Socket &&): the new value of the target and of the source
unfoldable pub move_to : Socket → Socket → Socket × Socket
move_to target source =
    let count : Option ℕ = elim target.rhcount [ none ↦ source.rhcount | some n ↦ some n ] in
    (record { handle = source.handle; rhcount = count }, no_socket)

-- Socket(Socket &&): `raw` is what the memory of the new socket holds, which the test of its counter
-- reads. The results are the new socket and what is left of the other.
unfoldable moved_socket : Socket → Socket → Socket × Socket
unfolding move_to
moved_socket raw source = move_to raw source

-- release_handle()
unfoldable pub release_handle : Socket → ℕ × Socket
release_handle s =
    let count : Option ℕ = elim s.rhcount [
      | none ↦ none
      | some n ↦ if n - 1 == 0 then none else some (n - 1)
    ] in
    (s.handle, record { handle = minus_one; rhcount = count })

abbrev pub nonblock : ℕ
nonblock = 0x800

-- set_nonblocking(): the flag is set, or flipped.
unfoldable pub set_nonblocking : System → Bool → Socket → Log → Bool × Log
set_nonblocking sys enable s log =
    if is_open s
    then (let (flags, log₁) = ask sys log (get_flags s.handle) in
        let wanted = if enable then bit_or flags nonblock else bit_xor flags nonblock in
        let (_, log₂) = ask sys log₁ (set_flags s.handle wanted) in (true, log₂))
    else (false, log)
