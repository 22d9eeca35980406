-- ===== src/Control.antt =====
-- `IMEIControl` (src/MEISystem.cpp): the receive thread, the control thread, and the threads that
-- call InitSystem, DeinitSystem and the destructor, as steps that interleave. A thread is a number:
-- 0 receives, 1 controls, the others call. A system is a number, which stands for its pointer and
-- its socket.
pub mod Locks
pub mod Others
pub mod Owned
pub mod Exclusion
pub mod Shutdown
pub mod Whole
pub mod Counting
pub mod Response
pub mod Kept
pub mod Lists
mod Tests
use net_port.Common.{
  ℕ, zero, suc, ◌+◌, ◌-◌, ◌≡◌, Bool, true, false, ◌&&◌, not, List, [], ◌∷◌, ◌++◌, Option, none,
  some, ◌==◌, if◌then◌else◌,
}

pub data Lock : Type 0 where
  receivelock : Lock
  controllock : Lock

-- A call of InitSystem or DeinitSystem.
pub data Registration : Type 0 where
  init_system : (sys : ℕ) → Registration
  deinit_system : (sys : ℕ) → Registration

-- Where a thread stands. The two loops differ in their lock only; `access` is their local variable.
pub data Place : Type 0 where
  -- before the lock in front of the loop
  start : (l : Lock) → Place
  -- before the test of while, and before the first, the second and the third test of the loop
  testing : (l : Lock) (access : Bool) → Place
  top : (l : Lock) (access : Bool) → Place
  second : (l : Lock) (access : Bool) → Place
  third : (l : Lock) (access : Bool) → Place
  -- at the lock inside the second test
  waiting : (l : Lock) → Place
  -- behind the loop, and where the thread calls std::terminate
  ending : (l : Lock) (access : Bool) → Place
  ended : Place
  -- outside the calls
  idle : Place
  -- after controlmod++, after the first lock, after the second
  raised : (r : Registration) → Place
  half : (r : Registration) → Place
  inside : (r : Registration) → Place
  -- returned with -1, the locks not given back
  refused : Place
  -- after controlmod++ of a further call, by a thread that was refused: it waits for a lock that is
  -- its own
  again : (r : Registration) → Place
  -- in the destructor, called by a thread that was refused: before each store of a flag, and at a
  -- lock that is its own
  doomed_stopping : Place
  doomed_halting : Place
  doomed_claiming : Place
  -- after the work, after the first unlock, after the second
  finished : Place
  leaving : Place
  lowering : Place
  -- in the destructor: before each store of a flag, before each lock, before each unlock
  stopping : Place
  halting : Place
  claiming : Place
  claimed : Place
  detaching : Place
  releasing : Place
  -- after an operation on a mutex that C++ does not define
  broken : Place

pub record Control : Type 0 where
  pub places : ℕ → Place
  pub locks : Lock → Option ℕ
  pub controlmod : ℕ
  -- runrecvthread and runctlthread, by the lock of the loop
  pub running : Lock → Bool
  -- std::terminate was called; the members are gone; a mutex was misused
  pub terminated : Bool
  pub destroyed : Bool
  pub undefined : Bool
  pub systems : List ℕ
  pub systemquery : List ℕ

abbrev pub same_lock : Lock → Lock → Bool
same_lock receivelock receivelock = true
same_lock controllock controllock = true
same_lock _ _ = false

abbrev pub at_place : ℕ → Place → Control → Control
at_place t p s = record s { places = λ u. if u == t then p else s.places u }

abbrev pub set_lock : Lock → Option ℕ → Control → Control
set_lock l o s = record s { locks = λ m. if same_lock m l then o else s.locks m }

-- lock(): the thread goes on if the lock is free, and stays where it is if not.
unfoldable pub lock : ℕ → Lock → Place → Control → Control
lock t l next s = elim (s.locks l) [ none ↦ at_place t next (set_lock l (some t) s) | some _ ↦ s ]

abbrev pub is_owner : Option ℕ → ℕ → Bool
is_owner none t = false
is_owner (some u) t = u == t

abbrev pub breaks : ℕ → Control → Control
breaks t s = at_place t broken (record s { undefined = true })

-- unlock(), which is undefined for a thread that does not hold the lock
unfoldable pub unlock : ℕ → Lock → Place → Control → Control
unlock t l next s =
    if is_owner (s.locks l) t then at_place t next (set_lock l none s) else breaks t s

abbrev pub includes : List ℕ → ℕ → Bool
includes [] x = false
includes (y ∷ ys) x = if y == x then true else includes ys x

abbrev pub without : List ℕ → ℕ → List ℕ
without [] x = []
without (y ∷ ys) x = let rest = without ys x in if y == x then rest else y ∷ rest

-- What the calls do to the lists while they hold both locks.
unfoldable pub work : ℕ → Registration → Control → Control
work t (init_system x) s =
    if includes s.systems x
    then at_place t refused s
    else at_place t finished
        (record s { systems = x ∷ s.systems; systemquery = s.systemquery ++ (x ∷ []) })
work t (deinit_system x) s = at_place t finished (record s {
  systems = without s.systems x;
  systemquery = if includes s.systems x then without s.systemquery x else s.systemquery;
})

-- The store of false to the flag of a loop
abbrev pub stop_loop : Lock → Control → Control
stop_loop l s = record s { running = λ m. if same_lock m l then false else s.running m }

-- One step of the thread `t` from its place. The last unlock of the destructor goes with the end of
-- the members.
unfoldable pub step_at : ℕ → Place → Control → Control
step_at t (start l) s = lock t l (testing l true) s
step_at t (testing l access) s =
    if s.running l then at_place t (top l access) s else at_place t (ending l access) s
step_at t (ending l access) s = unlock t l ended s
step_at t ended s = record s { terminated = true }
step_at t (top l true) s =
    if s.controlmod == 0 then at_place t (second l true) s else unlock t l (second l false) s
step_at t (top l false) s = at_place t (second l false) s
step_at t (second l true) s = at_place t (third l true) s
step_at t (second l false) s =
    if s.controlmod == 0 then at_place t (waiting l) s else at_place t (third l false) s
step_at t (waiting l) s = lock t l (third l true) s
step_at t (third l access) s = at_place t (testing l access) s
step_at t idle s = s
step_at t (raised r) s = lock t controllock (half r) s
step_at t (half r) s = lock t receivelock (inside r) s
step_at t (inside r) s = work t r s
step_at t refused s = s
step_at t (again r) s = lock t controllock (again r) s
step_at t doomed_stopping s = at_place t doomed_halting (stop_loop receivelock s)
step_at t doomed_halting s = at_place t doomed_claiming (stop_loop controllock s)
step_at t doomed_claiming s = lock t receivelock doomed_claiming s
step_at t finished s = unlock t receivelock leaving s
step_at t leaving s = unlock t controllock lowering s
step_at t lowering s = at_place t idle (record s { controlmod = s.controlmod - 1 })
step_at t stopping s = at_place t halting (stop_loop receivelock s)
step_at t halting s = at_place t claiming (stop_loop controllock s)
step_at t claiming s = lock t receivelock claimed s
step_at t claimed s = lock t controllock detaching s
step_at t detaching s = unlock t receivelock releasing s
step_at t releasing s = record (unlock t controllock idle s) { destroyed = true }
step_at t broken s = s

-- Outside the calls and the loops, or refused, which keeps the destructor from the end
abbrev pub is_outside : Place → Bool
is_outside idle = true
is_outside refused = true
is_outside (again _) = true
is_outside doomed_stopping = true
is_outside doomed_halting = true
is_outside doomed_claiming = true
is_outside broken = true
is_outside _ = false

-- A thread goes on; on a control that is gone it cannot.
unfoldable pub go_on : ℕ → Control → Control
unfolding step_at
go_on t s =
    if s.destroyed && not (is_outside (s.places t)) then breaks t s else step_at t (s.places t) s

-- A move of a schedule: a thread goes on, or a thread that is in no call makes one. A thread that was
-- refused goes on outside and may call again.
pub data Move : Type 0 where
  goes_on : (t : ℕ) → Move
  calls : (t : ℕ) (r : Registration) → Move
  destructs : (t : ℕ) → Move

unfoldable pub begin_at : ℕ → Registration → Place → Control → Control
begin_at t r idle s = at_place t (raised r) (record s { controlmod = s.controlmod + 1 })
begin_at t r refused s = at_place t (again r) (record s { controlmod = s.controlmod + 1 })
begin_at t r _ s = s

unfoldable pub destruct_at : ℕ → Place → Control → Control
destruct_at t idle s = at_place t stopping s
destruct_at t refused s = at_place t doomed_stopping s
destruct_at t _ s = s

unfoldable pub move_on : Move → Control → Control
unfolding go_on
move_on (goes_on t) s = go_on t s
move_on (calls t r) s = begin_at t r (s.places t) s
move_on (destructs t) s = destruct_at t (s.places t) s

-- Nothing moves after std::terminate.
unfoldable pub move : Move → Control → Control
unfolding move_on
move m s = if s.terminated then s else move_on m s

unfoldable pub moves : List Move → Control → Control
moves [] s = s
moves (m ∷ ms) s = moves ms (move m s)

abbrev pub first_place : ℕ → Place
first_place t = if t == 0 then start receivelock else (if t == 1 then start controllock else idle)

-- IMEIControl()
abbrev pub first_control : Control
first_control = record {
  places = first_place;
  locks = λ _. none;
  controlmod = 0;
  running = λ _. true;
  terminated = false;
  destroyed = false;
  undefined = false;
  systems = [];
  systemquery = [];
}

-- instance(), where the pointer holds the one control or none; the test and the store are two steps
-- of the code, with no lock.
abbrev control_instance : Option Control → Control
control_instance none = first_control
control_instance (some c) = c

-- LookupSystem
abbrev lookup_system : (id : ℕ) → Bool
lookup_system id = false
