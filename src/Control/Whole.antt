-- ===== src/Control/Whole.antt =====
-- While nobody destroys the `IMEIControl`, no thread misuses a lock and none ends the program.
use net_port.Common.{
  none, some, ℕ, ◌≡◌, ◌∙◌, ◌+◌, ◌-◌, ◌++◌, Option, sym, ap, refl, Bool, true, false, ◌&&◌, not,
  List, [], ◌∷◌, ◌==◌, if◌then◌else◌, if-cases, arith, All,
}
use net_port.Control.{
  Lock, receivelock, controllock, Place, start, testing, top, second, third, waiting, ending, ended,
  idle, raised, half, inside, refused, again, doomed_stopping, doomed_halting, doomed_claiming,
  finished, leaving, lowering, stopping, halting, claiming, claimed, detaching, releasing, broken,
  Control, set_lock, is_owner, breaks, is_outside, at_place, lock, unlock, work, step_at, go_on,
  begin_at, Registration, init_system, deinit_system, Move, goes_on, calls, destructs, move_on,
  move, moves, first_control, first_place, includes, without,
}
use net_port.Control.Locks.{holds, IsOwned, true≢false}
use net_port.Control.Owned.{move-IsOwned, first_control-IsOwned, same_lock_refl}

-- The places behind the loops, in the destructor and after a misuse.
abbrev pub is_last : Place → Bool
is_last (ending _ _) = true
is_last ended = true
is_last stopping = true
is_last halting = true
is_last claiming = true
is_last claimed = true
is_last detaching = true
is_last releasing = true
is_last doomed_stopping = true
is_last doomed_halting = true
is_last doomed_claiming = true
is_last broken = true
is_last _ = false

-- The loops run, nobody is behind them or in the destructor, and the control is not gone.
abbrev pub IsWhole : Control → Type 0
IsWhole s =
    ((t : ℕ) → is_last (s.places t) ≡ false)
    × ((l : Lock) → s.running l ≡ true)
    × (s.destroyed ≡ false)
    × (s.terminated ≡ false)
    × (s.undefined ≡ false)

-- A move that does not begin the destructor.
abbrev pub spares : Move → Bool
spares (goes_on _) = true
spares (calls _ _) = true
spares (destructs _) = false

pub owner_refl : (t : ℕ) → is_owner (some t) t ≡ true
owner_refl t = ground arith

module _ (t : ℕ) where
  at_place-IsWhole :
      (q : Place) (s : Control) → IsWhole s → is_last q ≡ false → IsWhole (at_place t q s)
  at_place-IsWhole q s (working, run, standing, alive, defined) h = (
    λ u. if-cases (λ (p : Place). is_last p ≡ false) (u == t) _ _ (λ _. h) (λ _. working u),
    run,
    standing,
    alive,
    defined,
  )

  lock-IsWhole :
      (l : Lock) (q : Place) (s : Control) → IsWhole s → is_last q ≡ false → IsWhole (lock t l q s)
  unfolding lock
  lock-IsWhole l q s v h =
      elim (s.locks l)
        as (λ o. IsWhole (elim o [ none ↦ at_place t q (set_lock l (some t) s) | some _ ↦ s ])) [
          | none ↦ at_place-IsWhole q (set_lock l (some t) s) v h
          | some _ ↦ v
        ]

  -- The holder of a lock may give it back.
  unlock-IsWhole :
      (l : Lock) (q : Place) (s : Control)
      → IsWhole s
      → s.locks l ≡ some t
      → is_last q ≡ false
      → IsWhole (unlock t l q s)
  unfolding unlock
  unlock-IsWhole l q s v held h =
      if-cases IsWhole (is_owner (s.locks l) t) _ _
        (λ _. at_place-IsWhole q (set_lock l none s) v h)
        (λ e.
          absurd
            (true≢false (sym (owner_refl t) ∙ sym (ap (λ (o : Option ℕ). is_owner o t) held) ∙ e)))

  -- The lists are no part of it.
  lists-IsWhole :
      (xs ys : List ℕ) (q : Place) (s : Control)
      → IsWhole s
      → is_last q ≡ false
      → IsWhole (at_place t q (record s { systems = xs; systemquery = ys }))
  lists-IsWhole xs ys q s v h = at_place-IsWhole q (record s { systems = xs; systemquery = ys }) v h

  work-IsWhole : (r : Registration) (s : Control) → IsWhole s → IsWhole (work t r s)
  unfolding work
  work-IsWhole (init_system x) s v =
      if-cases IsWhole _ _ _ (λ _. at_place-IsWhole refused s v refl)
        (λ _. lists-IsWhole (x ∷ s.systems) (s.systemquery ++ (x ∷ [])) finished s v refl)
  work-IsWhole (deinit_system x) s v =
      lists-IsWhole (without s.systems x)
        (if includes s.systems x then without s.systemquery x else s.systemquery) finished s v refl

  count-IsWhole :
      (n : ℕ) (q : Place) (s : Control)
      → IsWhole s
      → is_last q ≡ false
      → IsWhole (at_place t q (record s { controlmod = n }))
  count-IsWhole n q s v h = at_place-IsWhole q (record s { controlmod = n }) v h

  step_at-IsWhole :
      (p : Place) (s : Control)
      → IsWhole s
      → IsOwned s
      → s.places t ≡ p
      → is_last p ≡ false
      → IsWhole (step_at t p s)
  unfolding step_at
  step_at-IsWhole (start l) s v own e h = lock-IsWhole l (testing l true) s v refl
  step_at-IsWhole (testing l a) s v own e h =
      if-cases IsWhole (s.running l) _ _ (λ _. at_place-IsWhole (top l a) s v refl)
        (λ no. absurd (true≢false (sym (let (_, run, _, _, _) = v in run l) ∙ no)))
  step_at-IsWhole (top l true) s v own e h =
      if-cases IsWhole _ _ _ (λ _. at_place-IsWhole (second l true) s v refl)
        (λ _.
          unlock-IsWhole l (second l false) s v
            (own t l (ap (λ (x : Place). holds x l) e ∙ same_lock_refl l)) refl)
  step_at-IsWhole (top l false) s v own e h = at_place-IsWhole (second l false) s v refl
  step_at-IsWhole (second l true) s v own e h = at_place-IsWhole (third l true) s v refl
  step_at-IsWhole (second l false) s v own e h =
      if-cases IsWhole _ _ _ (λ _. at_place-IsWhole (waiting l) s v refl)
        (λ _. at_place-IsWhole (third l false) s v refl)
  step_at-IsWhole (waiting l) s v own e h = lock-IsWhole l (third l true) s v refl
  step_at-IsWhole (third l a) s v own e h = at_place-IsWhole (testing l a) s v refl
  step_at-IsWhole idle s v own e h = v
  step_at-IsWhole (raised r) s v own e h = lock-IsWhole controllock (half r) s v refl
  step_at-IsWhole (half r) s v own e h = lock-IsWhole receivelock (inside r) s v refl
  step_at-IsWhole (inside r) s v own e h = work-IsWhole r s v
  step_at-IsWhole refused s v own e h = v
  step_at-IsWhole (again r) s v own e h = lock-IsWhole controllock (again r) s v refl
  step_at-IsWhole finished s v own e h =
      unlock-IsWhole receivelock leaving s v
        (own t receivelock (ap (λ (x : Place). holds x receivelock) e)) refl
  step_at-IsWhole leaving s v own e h =
      unlock-IsWhole controllock lowering s v
        (own t controllock (ap (λ (x : Place). holds x controllock) e)) refl
  step_at-IsWhole lowering s v own e h = count-IsWhole (s.controlmod - 1) idle s v refl
  step_at-IsWhole _ s v own e h = absurd (ground arith)

  begin_at-IsWhole :
      (r : Registration) (p : Place) (s : Control) → IsWhole s → IsWhole (begin_at t r p s)
  unfolding begin_at
  begin_at-IsWhole r idle s v = count-IsWhole (s.controlmod + 1) (raised r) s v refl
  begin_at-IsWhole r refused s v = count-IsWhole (s.controlmod + 1) (again r) s v refl
  begin_at-IsWhole r _ s v = v

move_on-IsWhole :
    (m : Move) (s : Control) → IsWhole s → IsOwned s → spares m ≡ true → IsWhole (move_on m s)
unfolding move_on go_on
move_on-IsWhole (goes_on t) s v own e =
    let (working, _, standing, _, _) = v in
    if-cases IsWhole (s.destroyed && not (is_outside (s.places t))) (breaks t s)
      (step_at t (s.places t) s) (λ b. absurd (ground arith))
      (λ _. step_at-IsWhole t (s.places t) s v own refl (working t))
move_on-IsWhole (calls t r) s v own e = begin_at-IsWhole t r (s.places t) s v
move_on-IsWhole (destructs t) s v own e = absurd (ground arith)

pub move-IsWhole :
    (m : Move) (s : Control) → IsWhole s → IsOwned s → spares m ≡ true → IsWhole (move m s)
unfolding move
move-IsWhole m s v own e =
    if-cases IsWhole s.terminated s _ (λ _. v) (λ _. move_on-IsWhole m s v own e)

moves_from-IsWhole :
    (ms : List Move) (s : Control)
    → IsWhole s
    → IsOwned s
    → All (λ m. spares m ≡ true) ms
    → IsWhole (moves ms s)
unfolding moves
moves_from-IsWhole [] s v own es = v
moves_from-IsWhole (m ∷ ms) s v own (e, es) =
    moves_from-IsWhole ms (move m s) (move-IsWhole m s v own e) (move-IsOwned m s own) es

first_place-working : (t : ℕ) → is_last (first_place t) ≡ false
first_place-working t = ground arith

first_control-IsWhole : IsWhole first_control
first_control-IsWhole = (first_place-working, λ l. refl, refl, refl, refl)

-- As long as nobody calls the destructor, in every schedule of the two loops and of calls of
-- InitSystem and DeinitSystem, no loop ends, each unlock is one by the thread that holds the lock,
-- and the program is not ended by std::terminate.
pub moves-IsWhole :
    (ms : List Move) → All (λ m. spares m ≡ true) ms → IsWhole (moves ms first_control)
moves-IsWhole ms es =
    moves_from-IsWhole ms first_control first_control-IsWhole first_control-IsOwned es
