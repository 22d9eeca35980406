-- ===== src/Tcp/Life.antt =====
-- Sequences of calls of a connection, and what all of them keep.
use net_port.Common.{if-cases, ℕ, ◌≡◌, arith, Bool, true, ◌||◌, not, List, [], ◌∷◌, if◌then◌else◌}
use net_port.Address.{NetworkAddress}
use net_port.System.{System, Log}
use net_port.Socket.{is_open, close}
use net_port.Tcp.{
  Tcp, is_listening_state, is_connected_state, init, ensure, bind, bind_open, connect, connect_open,
  listen_open, listen_on, listen, send, recv,
}
use net_port.Tcp.Balance.{
  rest_of, IsBalanced, init-IsBalanced, bind-IsBalanced, connect-IsBalanced, listen_open-IsBalanced,
  send-IsBalanced, recv-IsBalanced,
}

-- A call of one of the operations that change a connection.
pub data Operation : Type 0 where
  do_init : (af : ℕ) → Operation
  do_bind : (a : NetworkAddress) → Operation
  do_connect : (a : NetworkAddress) → Operation
  do_listen_on : (a : NetworkAddress) (queue : ℕ) → Operation
  do_listen : (queue : ℕ) → Operation
  do_send : (bytes : List ℕ) → Operation
  do_recv : (size : ℕ) → Operation

unfoldable pub perform : System → Operation → Tcp × Log → Tcp × Log
perform sys (do_init af) (c, log) = rest_of (init sys af c log)
perform sys (do_bind a) (c, log) = rest_of (bind sys a c log)
perform sys (do_connect a) (c, log) = rest_of (connect sys a c log)
perform sys (do_listen_on a queue) (c, log) = rest_of (listen_on sys a queue c log)
perform sys (do_listen queue) (c, log) = rest_of (listen sys queue c log)
perform sys (do_send bytes) (c, log) = rest_of (send sys bytes c log)
perform sys (do_recv size) (c, log) = rest_of (recv sys size c log)

unfoldable pub perform_all : System → List Operation → Tcp × Log → Tcp × Log
perform_all sys [] x = x
perform_all sys (o ∷ os) x = perform_all sys os (perform sys o x)

-- A listening or connected state has `bound` set.
abbrev pub IsBound : Tcp → Type 0
IsBound c = is_listening_state c.state || is_connected_state c.state ≡ true → c.bound ≡ true

pub record IsAlive (x : Tcp × Log) : Type 0 where
  pub balanced : IsBalanced x
  pub has_address : IsBound (x.0)

init-IsBound :
    (sys : System) (af : ℕ) (c : Tcp) (log : Log)
    → IsBound c
    → IsBound ((rest_of (init sys af c log)).0)
unfolding init close
init-IsBound sys af c log h = ground arith

ensure-IsBound :
    (sys : System) (af : ℕ) (c : Tcp) (log : Log)
    → IsBound c
    → IsBound ((rest_of (ensure sys af c log)).0)
unfolding ensure
ensure-IsBound sys af c log h = ground (arith, init-IsBound sys af c log h)

bind-IsBound :
    (sys : System) (a : NetworkAddress) (c : Tcp) (log : Log)
    → IsBound c
    → IsBound ((rest_of (bind sys a c log)).0)
unfolding bind bind_open
bind-IsBound sys a c log h = ground (arith, ensure-IsBound sys a.af c log h)

bind-bound :
    (sys : System) (a : NetworkAddress) (c : Tcp) (log : Log)
    → (bind sys a c log).0 ≡ true
    → (rest_of (bind sys a c log)).0.bound ≡ true
unfolding bind bind_open
bind-bound sys a c log h = ground arith

connect-IsBound :
    (sys : System) (a : NetworkAddress) (c : Tcp) (log : Log)
    → IsBound c
    → IsBound ((rest_of (connect sys a c log)).0)
unfolding connect connect_open
connect-IsBound sys a c log h = ground (arith, ensure-IsBound sys a.af c log h)

listen_open-IsAlive :
    (sys : System) (queue : ℕ) (c : Tcp) (log : Log)
    → IsAlive (c, log)
    → c.bound ≡ true
    → IsAlive (rest_of (listen_open sys queue c log))
listen_open-IsAlive sys queue c log h b = record {
  balanced = listen_open-IsBalanced sys queue c log h.balanced;
  has_address = unfold listen_open in ground (arith, h.has_address);
}

bind-IsAlive :
    (sys : System) (a : NetworkAddress) (c : Tcp) (log : Log)
    → IsAlive (c, log)
    → IsAlive (rest_of (bind sys a c log))
bind-IsAlive sys a c log h = record {
  balanced = bind-IsBalanced sys a c log h.balanced;
  has_address = bind-IsBound sys a c log h.has_address;
}

listen_on-IsAlive :
    (sys : System) (a : NetworkAddress) (queue : ℕ) (c : Tcp) (log : Log)
    → IsAlive (c, log)
    → IsAlive (rest_of (listen_on sys a queue c log))
unfolding listen_on
listen_on-IsAlive sys a queue c log h =
    let start =
      if not (is_open c.socket) || not c.bound then bind sys a c log else (true, c, log) in
    let alive : IsAlive (rest_of start) =
      if-cases (λ (x : Bool × Tcp × Log). IsAlive (rest_of x))
        (not (is_open c.socket) || not c.bound) _ _ (λ _. bind-IsAlive sys a c log h) (λ _. h) in
    let address : start.0 ≡ true → (rest_of start).0.bound ≡ true =
      if-cases (λ (x : Bool × Tcp × Log). x.0 ≡ true → (rest_of x).0.bound ≡ true)
        (not (is_open c.socket) || not c.bound) _ _ (λ _. bind-bound sys a c log)
        (λ e _. ground arith) in
    if-cases (λ (x : Bool × Tcp × Log). IsAlive (rest_of x)) (start.0) _ _
      (λ e. listen_open-IsAlive sys queue _ _ alive (address e)) (λ _. alive)

listen-IsAlive :
    (sys : System) (queue : ℕ) (c : Tcp) (log : Log)
    → IsAlive (c, log)
    → IsAlive (rest_of (listen sys queue c log))
unfolding listen
listen-IsAlive sys queue c log h =
    if-cases (λ (x : Bool × Tcp × Log). IsAlive (rest_of x)) _ _ _
      (λ e. listen_open-IsAlive sys queue c log h (ground arith)) (λ _. h)

send-IsBound :
    (sys : System) (bytes : List ℕ) (c : Tcp) (log : Log)
    → IsBound c
    → IsBound ((rest_of (send sys bytes c log)).0)
unfolding send close
send-IsBound sys bytes c log h = ground arith

recv-IsBound :
    (sys : System) (size : ℕ) (c : Tcp) (log : Log)
    → IsBound c
    → IsBound ((rest_of (recv sys size c log)).0)
unfolding recv close
recv-IsBound sys size c log h = ground arith

perform-IsAlive :
    (sys : System) (o : Operation) (c : Tcp) (log : Log)
    → IsAlive (c, log)
    → IsAlive (perform sys o (c, log))
unfolding perform
perform-IsAlive sys (do_init af) c log h = record {
  balanced = init-IsBalanced sys af c log h.balanced;
  has_address = init-IsBound sys af c log h.has_address;
}
perform-IsAlive sys (do_bind a) c log h = bind-IsAlive sys a c log h
perform-IsAlive sys (do_connect a) c log h = record {
  balanced = connect-IsBalanced sys a c log h.balanced;
  has_address = connect-IsBound sys a c log h.has_address;
}
perform-IsAlive sys (do_listen_on a queue) c log h = listen_on-IsAlive sys a queue c log h
perform-IsAlive sys (do_listen queue) c log h = listen-IsAlive sys queue c log h
perform-IsAlive sys (do_send bytes) c log h = record {
  balanced = send-IsBalanced sys bytes c log h.balanced;
  has_address = send-IsBound sys bytes c log h.has_address;
}
perform-IsAlive sys (do_recv size) c log h = record {
  balanced = recv-IsBalanced sys size c log h.balanced;
  has_address = recv-IsBound sys size c log h.has_address;
}

-- Through every sequence of init, bind, connect, both forms of listen, send and recv, whatever the
-- system answers, the sockets that the system opened are as many as those closed and the one that
-- the connection still holds, and a listening or connected state has its `bound` flag.
pub perform_all-IsAlive :
    (sys : System) (os : List Operation) (x : Tcp × Log)
    → IsAlive x
    → IsAlive (perform_all sys os x)
unfolding perform_all
perform_all-IsAlive sys [] x h = h
perform_all-IsAlive sys (o ∷ os) (c, log) h =
    perform_all-IsAlive sys os (perform sys o (c, log)) (perform-IsAlive sys o c log h)
