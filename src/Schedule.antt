-- ===== src/Schedule.antt =====
-- The threads of `IMEIControl` (src/MEISystem.cpp) on the data of a program: the steps of Control
-- at which a thread works, and what it does there in Program. A round of a loop and the work of a
-- call are done as a whole; the locks decide when.
pub mod Registered
pub mod Serial
mod Tests
use net_port.Common.{
  ℕ, Bool, true, false, ◌&&◌, not, List, [], ◌∷◌, ◌++◌, Option, none, some, ◌>>=◌, if◌then◌else◌,
}
use net_port.Udp.{Host}
use net_port.System.{System}
use net_port.Arc4.{Source}
use net_port.Transfer.{Transfer}
use net_port.Query.{NativePoll, PollEntry, Polled}
use net_port.Control.{
  receivelock, controllock, Place, third, inside, Control, Registration, is_outside, Move, goes_on,
  move,
}
use net_port.Program.{Program, init_system, deinit_system, receive_round, control_round}

-- The work of a call of InitSystem or DeinitSystem, a round of the receive loop, and one of the
-- control loop
pub data Turn : Type 0 where
  registers : (r : Registration) → Turn
  polls : Turn
  ticks : Turn

-- What a thread does at a place. A loop works behind its third test, if it has access.
unfoldable pub turn_at : Place → List Turn
turn_at (inside r) = registers r ∷ []
turn_at (third receivelock true) = polls ∷ []
turn_at (third controllock true) = ticks ∷ []
turn_at _ = []

unfoldable pub move_turns : Move → Control → List Turn
unfolding turn_at
move_turns (goes_on t) s =
    if s.terminated
    then []
    else (if s.destroyed && not (is_outside (s.places t)) then [] else turn_at (s.places t))
move_turns _ s = []

-- The turns of a schedule, in their order
unfoldable pub schedule_turns : List Move → Control → List Turn
unfolding move_turns
schedule_turns [] s = []
schedule_turns (m ∷ ms) s = move_turns m s ++ schedule_turns ms (move m s)

unfoldable pub register : NativePoll → Registration → Program → Program
unfolding init_system deinit_system
register n (Registration.init_system x) p = (init_system n x p).1
register n (Registration.deinit_system x) p = deinit_system x p

-- `answer` is what poll says, which may depend on all that was done before.
module _ (host : Host) (sources : ℕ → Source) (raw : Transfer) (sys : System) (n : NativePoll)
    (answer : Program → List PollEntry → ℕ → Polled) where
  unfoldable pub perform : Turn → Program → Option Program
  unfolding register
  perform (registers r) p = some (register n r p)
  perform polls p = receive_round host sources raw sys n (answer p) p
  perform ticks p = control_round host sources raw sys n p.systems p

  unfoldable pub perform_all : List Turn → Program → Option Program
  perform_all [] p = some p
  perform_all (w ∷ ws) p = perform w p >>= perform_all ws
