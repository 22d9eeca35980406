-- ===== src/Control/Owned.antt =====
-- Every step leaves the locks to the threads that stand where they are held.
use net_port.Common.{
  ◌&&◌, not, ℕ, ◌≡◌, ◌∙◌, sym, ap, refl, true, false, List, [], ◌∷◌, some, if-cases, arith,
}
use net_port.Control.{
  releasing, detaching, claimed, claiming, halting, ended, stopping, ending, testing, move_on,
  destruct_at, broken, destructs, is_outside, Lock, receivelock, controllock, Place, start, top,
  second, third, waiting, idle, raised, half, inside, refused, again, doomed_stopping,
  doomed_halting, doomed_claiming, finished, leaving, lowering, Control, same_lock, at_place, lock,
  unlock, work, step_at, begin_at, Registration, init_system, deinit_system, Move, goes_on, calls,
  move, moves, first_control,
}
use net_port.Control.Locks.{
  breaks-IsOwned, holds, IsOwned, Keeps, at_place-IsOwned, lock-IsOwned, unlock-IsOwned,
}

pub same_some : {t u : ℕ} → some t ≡ some u → t ≡ u
same_some e = ground arith

pub same_lock_refl : (l : Lock) → same_lock l l ≡ true
same_lock_refl receivelock = refl
same_lock_refl controllock = refl

module _ (t : ℕ) (s : Control) (v : IsOwned s) where
  keeps : (p q : Place) → s.places t ≡ p → Keeps p q → Keeps (s.places t) q
  keeps p q e k l h = ap (λ (x : Place). holds x l) e ∙ k l h

  stays : (p q : Place) → s.places t ≡ p → Keeps p q → IsOwned (at_place t q s)
  stays p q e k = at_place-IsOwned t q s v (keeps p q e k)

  locks_more :
      (p q : Place) (l : Lock)
      → s.places t ≡ p
      → ((m : Lock) → holds q m ≡ true → same_lock m l ≡ false → holds p m ≡ true)
      → IsOwned (lock t l q s)
  locks_more p q l e k = lock-IsOwned t l q s v (λ m h f. ap (λ (x : Place). holds x m) e ∙ k m h f)

  unlocks :
      (p q : Place) (l : Lock)
      → s.places t ≡ p
      → holds q l ≡ false
      → Keeps p q
      → IsOwned (unlock t l q s)
  unlocks p q l e gone k = unlock-IsOwned t l q s v gone (keeps p q e k)

  work-IsOwned : (r : Registration) → s.places t ≡ inside r → IsOwned (work t r s)
  unfolding work
  work-IsOwned (init_system x) e =
      if-cases IsOwned _ _ _ (λ _. stays (inside (init_system x)) refused e (λ l h. refl))
        (λ _. stays (inside (init_system x)) finished e (λ l h. refl))
  work-IsOwned (deinit_system x) e = stays (inside (deinit_system x)) finished e (λ l h. refl)

  step_at-IsOwned : (p : Place) → s.places t ≡ p → IsOwned (step_at t p s)
  unfolding step_at
  step_at-IsOwned (start l) e = locks_more (start l) (testing l true) l e (λ m h f. sym f ∙ h)
  step_at-IsOwned (testing l a) e =
      if-cases IsOwned _ _ _ (λ _. stays (testing l a) (top l a) e (λ m h. h))
        (λ _. stays (testing l a) (ending l a) e (λ m h. h))
  step_at-IsOwned (ending l a) e = unlocks (ending l a) ended l e refl (λ m h. ground arith)
  step_at-IsOwned ended e = v
  step_at-IsOwned (top l true) e =
      if-cases IsOwned _ _ _ (λ _. stays (top l true) (second l true) e (λ m h. h))
        (λ _. unlocks (top l true) (second l false) l e refl (λ m h. ground arith))
  step_at-IsOwned (top l false) e = stays (top l false) (second l false) e (λ m h. h)
  step_at-IsOwned (second l true) e = stays (second l true) (third l true) e (λ m h. h)
  step_at-IsOwned (second l false) e =
      if-cases IsOwned _ _ _ (λ _. stays (second l false) (waiting l) e (λ m h. h))
        (λ _. stays (second l false) (third l false) e (λ m h. h))
  step_at-IsOwned (waiting l) e = locks_more (waiting l) (third l true) l e (λ m h f. sym f ∙ h)
  step_at-IsOwned (third l a) e = stays (third l a) (testing l a) e (λ m h. h)
  step_at-IsOwned idle e = v
  step_at-IsOwned (raised r) e =
      locks_more (raised r) (half r) controllock e (λ m h f. ground arith)
  step_at-IsOwned (half r) e = locks_more (half r) (inside r) receivelock e (λ m h f. ground arith)
  step_at-IsOwned (inside r) e = work-IsOwned r e
  step_at-IsOwned refused e = v
  step_at-IsOwned (again r) e = locks_more (again r) (again r) controllock e (λ m h f. h)
  step_at-IsOwned doomed_stopping e = stays doomed_stopping doomed_halting e (λ l h. refl)
  step_at-IsOwned doomed_halting e = stays doomed_halting doomed_claiming e (λ l h. refl)
  step_at-IsOwned doomed_claiming e =
      locks_more doomed_claiming doomed_claiming receivelock e (λ m h f. h)
  step_at-IsOwned finished e = unlocks finished leaving receivelock e refl (λ l h. refl)
  step_at-IsOwned leaving e = unlocks leaving lowering controllock e refl (λ l h. ground arith)
  step_at-IsOwned lowering e = stays lowering idle e (λ l h. h)
  step_at-IsOwned stopping e = stays stopping halting e (λ l h. h)
  step_at-IsOwned halting e = stays halting claiming e (λ l h. h)
  step_at-IsOwned claiming e = locks_more claiming claimed receivelock e (λ m h f. ground arith)
  step_at-IsOwned claimed e = locks_more claimed detaching controllock e (λ m h f. ground arith)
  step_at-IsOwned detaching e = unlocks detaching releasing receivelock e refl (λ l h. refl)
  step_at-IsOwned releasing e = unlocks releasing idle controllock e refl (λ l h. ground arith)
  step_at-IsOwned broken e = v

  begin_at-IsOwned : (r : Registration) (p : Place) → s.places t ≡ p → IsOwned (begin_at t r p s)
  unfolding begin_at
  begin_at-IsOwned r idle e = stays idle (raised r) e (λ l h. h)
  begin_at-IsOwned r refused e = stays refused (again r) e (λ l h. refl)
  begin_at-IsOwned r _ e = v

destruct_at-IsOwned :
    (t : ℕ) (p : Place) (s : Control) → IsOwned s → s.places t ≡ p → IsOwned (destruct_at t p s)
unfolding destruct_at
destruct_at-IsOwned t idle s v e = stays t s v idle stopping e (λ l h. h)
destruct_at-IsOwned t refused s v e = stays t s v refused doomed_stopping e (λ l h. refl)
destruct_at-IsOwned t _ s v e = v

move_on-IsOwned : (m : Move) (s : Control) → IsOwned s → IsOwned (move_on m s)
unfolding move_on
move_on-IsOwned (goes_on t) s v =
    if-cases IsOwned (s.destroyed && not (is_outside (s.places t))) _ _ (λ _. breaks-IsOwned t s v)
      (λ _. step_at-IsOwned t s v (s.places t) refl)
move_on-IsOwned (calls t r) s v = begin_at-IsOwned t s v r (s.places t) refl
move_on-IsOwned (destructs t) s v = destruct_at-IsOwned t (s.places t) s v refl

pub move-IsOwned : (m : Move) (s : Control) → IsOwned s → IsOwned (move m s)
unfolding move
move-IsOwned m s v = if-cases IsOwned s.terminated s _ (λ _. v) (λ _. move_on-IsOwned m s v)

pub moves-IsOwned : (ms : List Move) (s : Control) → IsOwned s → IsOwned (moves ms s)
unfolding moves
moves-IsOwned [] s v = v
moves-IsOwned (m ∷ ms) s v = moves-IsOwned ms (move m s) (move-IsOwned m s v)

pub first_control-IsOwned : IsOwned first_control
first_control-IsOwned t l h = ground arith
