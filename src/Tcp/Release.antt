-- ===== src/Tcp/Release.antt =====
-- The counter that ~Socket reads, through the calls of a connection.
use net_port.Common.{ℕ, ◌≡◌, ◌∙◌, refl, arith, List, [], ◌∷◌, Option, none}
use net_port.Address.{NetworkAddress}
use net_port.System.{System, Log}
use net_port.Socket.{Socket, close, destroy}
use net_port.Tcp.{
  Tcp, init, ensure, bind, bind_open, connect, connect_open, listen_open, listen_on, listen, send,
  recv,
}
use net_port.Tcp.Balance.{rest_of}
use net_port.Tcp.Life.{
  Operation, do_init, do_bind, do_connect, do_listen_on, do_listen, do_send, do_recv, perform,
  perform_all,
}

abbrev count_of : Tcp × Log → Option ℕ
count_of (c, _) = c.socket.rhcount

module _ (sys : System) where
  init-count :
      (af : ℕ) (c : Tcp) (log : Log) → count_of (rest_of (init sys af c log)) ≡ count_of (c, log)
  unfolding init close
  init-count af c log = ground arith

  ensure-count :
      (af : ℕ) (c : Tcp) (log : Log) → count_of (rest_of (ensure sys af c log)) ≡ count_of (c, log)
  unfolding ensure
  ensure-count af c log = ground (arith, init-count af c log)

  bind-count :
      (a : NetworkAddress) (c : Tcp) (log : Log)
      → count_of (rest_of (bind sys a c log)) ≡ count_of (c, log)
  unfolding bind bind_open
  bind-count a c log = ground (arith, ensure-count a.af c log)

  connect-count :
      (a : NetworkAddress) (c : Tcp) (log : Log)
      → count_of (rest_of (connect sys a c log)) ≡ count_of (c, log)
  unfolding connect connect_open
  connect-count a c log = ground (arith, ensure-count a.af c log)

  listen_on-count :
      (a : NetworkAddress) (queue : ℕ) (c : Tcp) (log : Log)
      → count_of (rest_of (listen_on sys a queue c log)) ≡ count_of (c, log)
  unfolding listen_on listen_open
  listen_on-count a queue c log = ground (arith, bind-count a c log)

  listen-count :
      (queue : ℕ) (c : Tcp) (log : Log)
      → count_of (rest_of (listen sys queue c log)) ≡ count_of (c, log)
  unfolding listen listen_open
  listen-count queue c log = ground arith

  send-count :
      (bytes : List ℕ) (c : Tcp) (log : Log)
      → count_of (rest_of (send sys bytes c log)) ≡ count_of (c, log)
  unfolding send close
  send-count bytes c log = ground arith

  recv-count :
      (size : ℕ) (c : Tcp) (log : Log)
      → count_of (rest_of (recv sys size c log)) ≡ count_of (c, log)
  unfolding recv close
  recv-count size c log = ground arith

  perform-count :
      (o : Operation) (c : Tcp) (log : Log) → count_of (perform sys o (c, log)) ≡ count_of (c, log)
  unfolding perform
  perform-count (do_init af) c log = init-count af c log
  perform-count (do_bind a) c log = bind-count a c log
  perform-count (do_connect a) c log = connect-count a c log
  perform-count (do_listen_on a queue) c log = listen_on-count a queue c log
  perform-count (do_listen queue) c log = listen-count queue c log
  perform-count (do_send bytes) c log = send-count bytes c log
  perform-count (do_recv size) c log = recv-count size c log

  perform_all-count :
      (os : List Operation) (x : Tcp × Log) → count_of (perform_all sys os x) ≡ count_of x
  unfolding perform_all
  perform_all-count [] x = refl
  perform_all-count (o ∷ os) (c, log) =
      perform_all-count os (perform sys o (c, log)) ∙ perform-count o c log

destroy-none :
    (sys : System) (s : Socket) (log : Log) → s.rhcount ≡ none → destroy sys s log ≡ (s, log)
unfolding destroy
destroy-none sys s log e = ground (arith, e)

-- The destructor of a connection that started without a counter makes no call of the system,
-- whatever operations came before: a socket that the connection holds then stays open.
pub destroy-perform_all :
    (sys : System) (os : List Operation) (c : Tcp) (log : Log)
    → c.socket.rhcount ≡ none
    → let (d, after) = perform_all sys os (c, log) in destroy sys d.socket after ≡ (d.socket, after)
destroy-perform_all sys os c log e =
    let (d, after) = perform_all sys os (c, log) in
    destroy-none sys d.socket after (perform_all-count sys os (c, log) ∙ e)
