-- ===== src/Control/Shutdown.antt =====
-- The end of `IMEIControl`: the destructor takes the two locks in the other order than InitSystem
-- and DeinitSystem, so it can stop for ever with one of them.
use net_port.Control.{
  receivelock, controllock, Place, start, testing, top, second, third, waiting, ending, ended, idle,
  raised, half, inside, refused, again, doomed_stopping, doomed_halting, doomed_claiming, finished,
  leaving, lowering, stopping, halting, claiming, claimed, detaching, releasing, broken, Control,
  lock, unlock, work, step_at, go_on, begin_at, destruct_at, Registration, init_system,
  deinit_system, Move, goes_on, calls, destructs, move_on, move, moves,
}
use net_port.Common.{
  ℕ, ◌≡◌, ◌∙◌, sym, ap, refl, Bool, true, false, List, [], ◌∷◌, some, ◌==◌, if-cases, arith,
  Bool-cases, inl, inr,
}
use net_port.Control.Locks.{holds, IsOwned, lock-held}
use net_port.Control.Owned.{same_some, move-IsOwned}
use net_port.Control.Others.{same_number, mover, move-others, move-stuck}

abbrev is_releasing : Place → Bool
is_releasing releasing = true
is_releasing _ = false

step_at-destroyed :
    (t : ℕ) (p : Place) (s : Control)
    → is_releasing p ≡ false
    → (step_at t p s).destroyed ≡ s.destroyed
unfolding step_at lock unlock work
step_at-destroyed t (start l) s h = ground arith
step_at-destroyed t (testing l a) s h = ground arith
step_at-destroyed t (ending l a) s h = ground arith
step_at-destroyed t ended s h = refl
step_at-destroyed t (top l true) s h = ground arith
step_at-destroyed t (top l false) s h = refl
step_at-destroyed t (second l true) s h = refl
step_at-destroyed t (second l false) s h = ground arith
step_at-destroyed t (waiting l) s h = ground arith
step_at-destroyed t (third l a) s h = refl
step_at-destroyed t idle s h = refl
step_at-destroyed t (raised r) s h = ground arith
step_at-destroyed t (half r) s h = ground arith
step_at-destroyed t (inside (init_system x)) s h = ground arith
step_at-destroyed t (inside (deinit_system x)) s h = refl
step_at-destroyed t refused s h = refl
step_at-destroyed t (again r) s h = ground arith
step_at-destroyed t doomed_stopping s h = refl
step_at-destroyed t doomed_halting s h = refl
step_at-destroyed t doomed_claiming s h = ground arith
step_at-destroyed t finished s h = ground arith
step_at-destroyed t leaving s h = ground arith
step_at-destroyed t lowering s h = refl
step_at-destroyed t stopping s h = refl
step_at-destroyed t halting s h = refl
step_at-destroyed t claiming s h = ground arith
step_at-destroyed t claimed s h = ground arith
step_at-destroyed t detaching s h = ground arith
step_at-destroyed t releasing s h = absurd (ground arith)
step_at-destroyed t broken s h = refl

begin_at-destroyed :
    (t : ℕ) (r : Registration) (p : Place) (s : Control)
    → (begin_at t r p s).destroyed ≡ s.destroyed
unfolding begin_at
begin_at-destroyed t r idle s = refl
begin_at-destroyed t r refused s = refl
begin_at-destroyed t r _ s = refl

destruct_at-destroyed :
    (t : ℕ) (p : Place) (s : Control) → (destruct_at t p s).destroyed ≡ s.destroyed
unfolding destruct_at
destruct_at-destroyed t idle s = refl
destruct_at-destroyed t refused s = refl
destruct_at-destroyed t _ s = refl

move-destroyed :
    (m : Move) (s : Control)
    → is_releasing (s.places (mover m)) ≡ false
    → (move m s).destroyed ≡ s.destroyed
unfolding move move_on go_on
move-destroyed (goes_on t) s h =
    if-cases (λ (r : Control). r.destroyed ≡ s.destroyed) s.terminated s _ (λ _. refl)
      (λ _.
        if-cases (λ (r : Control). r.destroyed ≡ s.destroyed) _ _ _ (λ _. refl)
          (λ _. step_at-destroyed t (s.places t) s h))
move-destroyed (calls t r) s h =
    if-cases (λ (q : Control). q.destroyed ≡ s.destroyed) s.terminated s _ (λ _. refl)
      (λ _. begin_at-destroyed t r (s.places t) s)
move-destroyed (destructs t) s h =
    if-cases (λ (r : Control). r.destroyed ≡ s.destroyed) s.terminated s _ (λ _. refl)
      (λ _. destruct_at-destroyed t (s.places t) s)

-- The destructor in the thread `t` holds the receive lock and waits for the other, and a caller in
-- the thread `u` holds that one and waits for the first.
pub record AreCrossed (t u : ℕ) (r : Registration) (s : Control) : Type 0 where
  pub owned : IsOwned s
  pub standing : s.destroyed ≡ false
  pub destructor : s.places t ≡ claimed
  pub caller : s.places u ≡ half r

releasing-holds : (p : Place) → is_releasing p ≡ true → holds p controllock ≡ true
releasing-holds releasing e = refl
releasing-holds _ e = absurd (ground arith)

module _ (t u : ℕ) (r : Registration) (s : Control) (v : AreCrossed t u r s) where
  receive_held : s.locks receivelock ≡ some t
  receive_held = v.owned t receivelock (ap (λ (p : Place). holds p receivelock) v.destructor)

  control_held : s.locks controllock ≡ some u
  control_held = v.owned u controllock (ap (λ (p : Place). holds p controllock) v.caller)

  -- No thread is at the last unlock of the destructor.
  none_releasing : (w : ℕ) → is_releasing (s.places w) ≡ false
  none_releasing w = elim (Bool-cases (is_releasing (s.places w))) [
    | inl h ↦
        let owner : w ≡ u =
          same_some (sym (v.owned w controllock (releasing-holds (s.places w) h)) ∙ control_held) in
        ap (λ (x : ℕ). is_releasing (s.places x)) owner ∙ ap is_releasing v.caller
    | inr h ↦ h
  ]

  destructor-waits : (m : Move) → s.places (mover m) ≡ claimed → move m s ≡ s
  unfolding step_at
  destructor-waits m e =
      move-stuck m s claimed e refl (rw v.standing refl)
        (lock-held (mover m) u controllock detaching s control_held)

  caller-waits : (m : Move) → s.places (mover m) ≡ half r → move m s ≡ s
  unfolding step_at
  caller-waits m e =
      move-stuck m s (half r) e refl (rw v.standing refl)
        (lock-held (mover m) t receivelock (inside r) s receive_held)

  -- A thread whose moves change nothing stays, whoever moves.
  stays_put :
      (w : ℕ) (p : Place)
      → s.places w ≡ p
      → ((m : Move) → s.places (mover m) ≡ p → move m s ≡ s)
      → (m : Move) → (move m s).places w ≡ p
  stays_put w p e waits m = elim (Bool-cases (w == mover m)) [
    | inl h ↦
        let at : s.places (mover m) ≡ p = ap (s.places) (sym (same_number w (mover m) h)) ∙ e in
        ap (λ (q : Control). q.places w) (waits m at) ∙ e
    | inr h ↦ move-others m s w h ∙ e
  ]

  move-AreCrossed : (m : Move) → AreCrossed t u r (move m s)
  move-AreCrossed m = record {
    owned = move-IsOwned m s v.owned;
    standing = move-destroyed m s (none_releasing (mover m)) ∙ v.standing;
    destructor = stays_put t claimed v.destructor destructor-waits m;
    caller = stays_put u (half r) v.caller caller-waits m;
  }

-- When the destructor holds the receive lock and waits for the control lock, while a call of
-- InitSystem or DeinitSystem holds the control lock and waits for the receive lock, both wait for
-- ever: it stays so in every schedule, and the members of the control are never gone.
pub moves-AreCrossed :
    (ms : List Move) (t u : ℕ) (r : Registration) (s : Control)
    → AreCrossed t u r s
    → AreCrossed t u r (moves ms s)
unfolding moves
moves-AreCrossed [] t u r s v = v
moves-AreCrossed (m ∷ ms) t u r s v =
    moves-AreCrossed ms t u r (move m s) (move-AreCrossed t u r s v m)
