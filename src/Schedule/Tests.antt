-- ===== src/Schedule/Tests.antt =====
-- A schedule of a call and of a round of each loop.
use net_port.Common.{◌≡◌, refl, true, List, [], ◌∷◌, ◌++◌, some, arith}
use net_port.Query.{linux_poll}
use net_port.Control.{
  receivelock, controllock, third, Registration, Move, goes_on, calls, moves, move, move_on, go_on,
  step_at, begin_at, destruct_at, lock, unlock, work, first_control,
}
use net_port.Program.{Program}
use net_port.Program.Rounds.{IsSafe}
use net_port.Program.Sample.{raw, network, sources, host, start, start-IsSafe, both}
use net_port.Schedule.{registers, polls, ticks, turn_at, move_turns, schedule_turns, perform_all}
use net_port.Schedule.Registered.{systems_of, sockets_of}
use net_port.Schedule.Serial.{moves-refine}

-- Thread 2 registers the system 4; then each loop comes to its third test.
abbrev to_third : List Move
to_third =
    calls 2 (Registration.init_system 4)
    ∷ goes_on 2
    ∷ goes_on 2
    ∷ goes_on 2
    ∷ goes_on 2
    ∷ goes_on 2
    ∷ goes_on 2
    ∷ goes_on 0
    ∷ goes_on 0
    ∷ goes_on 0
    ∷ goes_on 0
    ∷ goes_on 1
    ∷ goes_on 1
    ∷ goes_on 1
    ∷ goes_on 1
    ∷ []

-- Both loops have access at once, each with its own lock.
to_third_receives : (moves to_third first_control).places 0 ≡ third receivelock true
unfolding moves move move_on go_on step_at begin_at destruct_at lock unlock work
to_third_receives = refl

to_third_controls : (moves to_third first_control).places 1 ≡ third controllock true
unfolding moves move move_on go_on step_at begin_at destruct_at lock unlock work
to_third_controls = refl

abbrev rounds : List Move
rounds = to_third ++ (goes_on 0 ∷ goes_on 1 ∷ [])

rounds_turns :
    schedule_turns rounds first_control
    ≡ registers (Registration.init_system 4) ∷ polls ∷ ticks ∷ []
unfolding schedule_turns move_turns turn_at move move_on go_on step_at begin_at destruct_at lock
    unlock work
rounds_turns = refl

moves-refine_example :
    (q : Program) × (perform_all network sources raw host linux_poll
        (λ _. both)
        (schedule_turns rounds first_control)
        start
      ≡ some q)
    × (systems_of q.systems ≡ (moves rounds first_control).systems)
    × (sockets_of q.systemquery.qlist ≡ (moves rounds first_control).systemquery)
    × IsSafe linux_poll q
moves-refine_example =
    moves-refine network sources raw host linux_poll (λ _. both) (λ _ _ z. omega (arith, z)) rounds
      start refl start-IsSafe
