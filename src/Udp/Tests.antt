-- ===== src/Udp/Tests.antt =====
-- A run of a datagram socket on a small system.
use net_port.Common.{refl, arith, true, false, List, [], ◌∷◌}
use net_port.Address.{undefined_address}
use net_port.System.{System}
use net_port.Udp.Calls.{new_udp}
use net_port.Udp.Handles.{
  Operation, do_init, do_bind, perform_all, IsAlive, open_handles, udp-IsAlive,
}

-- A system whose every answer is 7.
abbrev host : System
host = record {
  answer = λ _ _. 7;
  would_block = λ _. false;
  readable = λ _ _. true;
  writable = λ _ _. false;
  failed = λ _ _. false;
  peer = λ _. undefined_address;
  arrived = λ _. [];
}

abbrev calls : List Operation
calls = do_init 2 ∷ do_bind undefined_address ∷ do_init 2 ∷ []

udp-IsAlive_example : IsAlive (perform_all host calls (new_udp, []))
unfolding open_handles
udp-IsAlive_example =
    udp-IsAlive host calls new_udp [] (λ log af e. omega (arith, e))
      (record { holds = refl; usable = λ e. omega (arith, e) })
