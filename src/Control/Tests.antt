-- ===== src/Control/Tests.antt =====
-- Runs of the threads, and their theorems at such runs.
use net_port.Common.{◌≡◌, ◌≤◌, refl, true, false, List, [], ◌∷◌, ◌++◌, ◌&&◌, ◌⊎◌, arith}
use net_port.Control.{
  receivelock, controllock, refused, again, Move, goes_on, calls, init_system, deinit_system,
  destructs, moves, move, move_on, go_on, destruct_at, Control, first_control, step_at, begin_at,
  lock, unlock, work,
}
use net_port.Control.Kept.{SameLists}
use net_port.Control.Lists.{AreLinked, moves-AreLinked}
use net_port.Control.Counting.{moves-counted}
use net_port.Control.Locks.{holds}
use net_port.Control.Owned.{moves-IsOwned, first_control-IsOwned}
use net_port.Control.Exclusion.{moves-exclude, moves-refused}
use net_port.Control.Shutdown.{AreCrossed, moves-AreCrossed}
use net_port.Control.Response.{IsFreed, moves-IsFreed, at_third}
use net_port.Control.Whole.{IsWhole, moves-IsWhole}

-- The loops start, and thread 2 calls InitSystem.
abbrev before_work : List Move
before_work =
    goes_on 0
    ∷ goes_on 0
    ∷ goes_on 1
    ∷ goes_on 1
    ∷ calls 2 (init_system 8)
    ∷ goes_on 0
    ∷ goes_on 1
    ∷ goes_on 2
    ∷ goes_on 2
    ∷ []

abbrev one_call : List Move
one_call = before_work ++ (goes_on 2 ∷ [])

-- The same system a second time: the locks are given back, taken again and kept.
abbrev two_calls : List Move
two_calls =
    one_call
    ++ (goes_on 2
        ∷ goes_on 2
        ∷ goes_on 2
        ∷ calls 2 (init_system 8)
        ∷ goes_on 2
        ∷ goes_on 2
        ∷ goes_on 2
        ∷ [])

one_call_systems : (moves one_call first_control).systems ≡ 8 ∷ []
unfolding moves move move_on go_on step_at begin_at destruct_at lock unlock work
one_call_systems = refl

two_calls_refused : (moves two_calls first_control).places 2 ≡ refused
unfolding moves move move_on go_on step_at begin_at destruct_at lock unlock work
two_calls_refused = refl

-- The next step of thread 2 puts the system on the lists.
abbrev registering : Control
registering = moves before_work first_control

moves-exclude_example :
    (holds (registering.places 2) controllock && holds (registering.places 1) controllock ≡ false)
    × (SameLists (move (goes_on 2) registering) registering
        ⊎ (holds (registering.places 2) controllock ≡ true))
moves-exclude_example = moves-exclude before_work (goes_on 2) 1 controllock (λ e. omega (arith, e))

moves-refused_example :
    holds
      ((moves (goes_on 0 ∷ goes_on 0 ∷ []) (moves two_calls first_control)).places 0)
      receivelock
    ≡ false
moves-refused_example =
    moves-refused (goes_on 0 ∷ goes_on 0 ∷ []) (moves two_calls first_control) 2 0 receivelock
      (moves-IsOwned two_calls first_control first_control-IsOwned) two_calls_refused
      (λ e. omega (arith, e))

-- The loops give their locks back for a call of InitSystem, and thread 3 destroys meanwhile.
abbrev crossing : List Move
crossing =
    goes_on 0
    ∷ goes_on 0
    ∷ goes_on 1
    ∷ goes_on 1
    ∷ calls 2 (init_system 8)
    ∷ goes_on 0
    ∷ goes_on 1
    ∷ destructs 3
    ∷ goes_on 3
    ∷ goes_on 3
    ∷ goes_on 2
    ∷ goes_on 3
    ∷ []

abbrev crossed : Control
crossed = moves crossing first_control

crossing-AreCrossed : AreCrossed 3 2 (init_system 8) crossed
unfolding moves move move_on go_on step_at begin_at destruct_at lock unlock work
crossing-AreCrossed = record {
  owned = moves-IsOwned crossing first_control first_control-IsOwned;
  standing = refl;
  destructor = refl;
  caller = refl;
}

moves-AreCrossed_example :
    AreCrossed 3 2 (init_system 8) (moves (goes_on 3 ∷ goes_on 2 ∷ goes_on 0 ∷ []) crossed)
moves-AreCrossed_example =
    moves-AreCrossed (goes_on 3 ∷ goes_on 2 ∷ goes_on 0 ∷ []) 3 2 (init_system 8) crossed
      crossing-AreCrossed

moves-IsWhole_example : IsWhole (moves two_calls first_control)
moves-IsWhole_example = moves-IsWhole two_calls (ground arith)

-- A loop that has given its lock back when it is told to end gives it back again.
abbrev ending_outside : List Move
ending_outside =
    goes_on 0
    ∷ goes_on 0
    ∷ calls 2 (init_system 8)
    ∷ goes_on 0
    ∷ destructs 3
    ∷ goes_on 3
    ∷ goes_on 0
    ∷ goes_on 0
    ∷ goes_on 0
    ∷ goes_on 0
    ∷ []

ending_outside_undefined : (moves ending_outside first_control).undefined ≡ true
unfolding moves move move_on go_on step_at begin_at destruct_at lock unlock work
ending_outside_undefined = refl

-- A destructor that nobody hinders lets the receive loop end, which ends the program.
abbrev plain_end : List Move
plain_end = goes_on 0 ∷ destructs 3 ∷ goes_on 3 ∷ goes_on 0 ∷ goes_on 0 ∷ goes_on 0 ∷ []

plain_end_terminated : (moves plain_end first_control).terminated ≡ true
unfolding moves move move_on go_on step_at begin_at destruct_at lock unlock work
plain_end_terminated = refl

-- The receive loop is at its third test when thread 2 calls.
abbrev calling : List Move
calling = goes_on 0 ∷ goes_on 0 ∷ goes_on 0 ∷ goes_on 0 ∷ calls 2 (init_system 8) ∷ []

abbrev meanwhile : List Move
meanwhile = goes_on 0 ∷ goes_on 1 ∷ goes_on 2 ∷ goes_on 0 ∷ goes_on 1 ∷ goes_on 0 ∷ []

moves-IsFreed_example : IsFreed receivelock meanwhile (moves calling first_control)
unfolding moves move move_on go_on step_at begin_at lock unlock work
moves-IsFreed_example =
    moves-IsFreed calling meanwhile 0 2 receivelock at_third (ground arith) refl (ground arith)
      (omega arith)

-- A second call of a thread that was refused
abbrev three_calls : List Move
three_calls = two_calls ++ (calls 2 (deinit_system 8) ∷ goes_on 2 ∷ destructs 3 ∷ goes_on 3 ∷ [])

three_calls_waits : (moves three_calls first_control).places 2 ≡ again (deinit_system 8)
unfolding moves move move_on go_on step_at begin_at destruct_at lock unlock work
three_calls_waits = refl

moves-AreLinked_example : AreLinked (moves three_calls first_control)
moves-AreLinked_example = moves-AreLinked three_calls

-- Thread 4 calls while thread 2 has not yet given the locks back.
abbrev two_callers : List Move
two_callers = one_call ++ (calls 4 (deinit_system 8) ∷ [])

moves-counted_example : 2 ≤ (moves two_callers first_control).controlmod
unfolding moves move move_on go_on step_at begin_at destruct_at lock unlock work
moves-counted_example = moves-counted two_callers (2 ∷ 4 ∷ []) (refl, (refl, tt)) (refl, (refl, tt))
