-- ===== src/Udp/Handles.antt =====
-- What the calls of a datagram socket keep.
use net_port.Common.{
  ◌>>=◌, none, some, Option, ◌∙◌, sym, ℕ, ◌≡◌, ◌≢◌, arith, List, [], ◌∷◌, ◌==◌, if◌then◌else◌,
}
use net_port.System.{Call, System, Log, minus_one, open_socket, close_handle}
use net_port.Address.{NetworkAddress}
use net_port.Udp.{UdpSocket}
use net_port.Udp.Calls.{init, bind, close, datagram_kind, udp_protocol}

pub data Operation : Type 0 where
  do_init : (af : ℕ) → Operation
  do_bind : (a : NetworkAddress) → Operation

unfoldable pub perform : System → Operation → UdpSocket × Log → UdpSocket × Log
perform sys (do_init af) (s, log) = let (_, s₁, log₁) = init sys af s log in (s₁, log₁)
perform sys (do_bind a) (s, log) = let (_, s₁, log₁) = bind sys a s log in (s₁, log₁)

unfoldable pub perform_all : System → List Operation → UdpSocket × Log → UdpSocket × Log
perform_all sys [] x = x
perform_all sys (o ∷ os) x = perform_all sys os (perform sys o x)

-- The handles that are open after the calls of a log, and `none` if a call closes one that is not
-- open then
unfoldable give_back : ℕ → List ℕ → Option (List ℕ)
give_back h [] = none
give_back h (x ∷ xs) =
    let rest = give_back h xs in if x == h then some xs else (rest >>= λ ys. some (x ∷ ys))

unfoldable after_call : Call → ℕ → List ℕ → Option (List ℕ)
unfolding give_back
after_call (open_socket _ _ _) h hs = some (if h == minus_one then hs else h ∷ hs)
after_call (close_handle h) _ hs = give_back h hs
after_call _ _ hs = some hs

unfoldable pub open_handles : Log → Option (List ℕ)
unfolding after_call
open_handles [] = some []
open_handles ((c, n) ∷ log) = open_handles log >>= after_call c n

abbrev pub held_handles : UdpSocket → List ℕ
held_handles s = if s.handle == minus_one then [] else s.handle ∷ []

pub record IsAlive (x : UdpSocket × Log) : Type 0 where
  pub holds : open_handles (x.1) ≡ some (held_handles (x.0))
  pub usable : x.0.handle ≢ 0

abbrev pub NeverZero : System → Type 0
NeverZero sys =
    (log : Log) (af : ℕ) → sys.answer log (open_socket af datagram_kind udp_protocol) ≢ 0

close-holds :
    (sys : System) (s : UdpSocket) (log : Log)
    → open_handles log ≡ some (held_handles s)
    → let (s₁, log₁) = close sys s log in (open_handles log₁ ≡ some []) × (s₁.handle ≡ minus_one)
unfolding close open_handles after_call give_back
close-holds sys s log h = (ground (arith, h), ground arith)

init-holds :
    (sys : System) (af : ℕ) (s : UdpSocket) (log : Log)
    → s.handle ≢ 0
    → open_handles log ≡ some (held_handles s)
    → let (_, s₁, log₁) = init sys af s log in open_handles log₁ ≡ some (held_handles s₁)
unfolding init open_handles after_call give_back
init-holds sys af s log z h =
    let (closed, gone) = close-holds sys s log h in ground (arith, closed, gone)

pub init-usable :
    (sys : System) (af : ℕ) (s : UdpSocket) (log : Log)
    → NeverZero sys
    → s.handle ≢ 0
    → let (_, s₁, _) = init sys af s log in s₁.handle ≢ 0
unfolding init close
init-usable sys af s log never z =
    let (_, before) = if s.handle == 0 then (s, log) else close sys s log in
    ground (arith, never before af)

pub close-usable :
    (sys : System) (s : UdpSocket) (log : Log)
    → s.handle ≢ 0
    → let (s₁, _) = close sys s log in s₁.handle ≢ 0
unfolding close
close-usable sys s log z = ground arith

bind-holds :
    (sys : System) (a : NetworkAddress) (s : UdpSocket) (log : Log)
    → open_handles log ≡ some (held_handles s)
    → let (_, s₁, log₁) = bind sys a s log in open_handles log₁ ≡ some (held_handles s₁)
unfolding bind open_handles after_call
bind-holds sys a s log h = ground (arith, h)

pub bind-handle :
    (sys : System) (a : NetworkAddress) (s : UdpSocket) (log : Log)
    → let (_, s₁, _) = bind sys a s log in s₁.handle ≡ s.handle
unfolding bind
bind-handle sys a s log = ground arith

-- With a system that never gives the handle 0, from a socket whose handle is not 0 and is the only
-- one open, or that has none and none is open: after every sequence of init and bind the handles that
-- were opened and not closed are the one that the socket holds, or none if it holds none; no call
-- closed a handle that was not open then, and the handle held is not 0.
pub udp-IsAlive :
    (sys : System) (os : List Operation) (s : UdpSocket) (log : Log)
    → NeverZero sys
    → IsAlive (s, log)
    → IsAlive (perform_all sys os (s, log))
unfolding perform_all perform
udp-IsAlive sys [] s log never h = h
udp-IsAlive sys (do_init af ∷ os) s log never h =
    let (_, s₁, log₁) = init sys af s log in
    udp-IsAlive sys os s₁ log₁ never (record {
      holds = init-holds sys af s log h.usable h.holds;
      usable = init-usable sys af s log never h.usable;
    })
udp-IsAlive sys (do_bind a ∷ os) s log never h =
    let (_, s₁, log₁) = bind sys a s log in
    udp-IsAlive sys os s₁ log₁ never (record {
      holds = bind-holds sys a s log h.holds;
      usable = λ e. h.usable (sym (bind-handle sys a s log) ∙ e);
    })
