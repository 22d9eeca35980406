-- ===== src/Control/Exclusion.antt =====
-- The threads of `IMEIControl` exclude each other from the lists, and a caller that InitSystem
-- refuses keeps both locks for ever.
use net_port.Control.Owned.{same_some, move-IsOwned, moves-IsOwned, first_control-IsOwned}
use net_port.Common.{
  Bool, inl, inr, ◌⊎◌, Bool-cases, ◌&&◌, not, ℕ, ◌≡◌, ◌≢◌, ◌∙◌, sym, ap, refl, true, false, List,
  [], ◌∷◌, ◌==◌, if-cases, arith,
}
use net_port.Control.{
  move_on, destruct_at, destructs, is_outside, Lock, receivelock, controllock, Place, idle, inside,
  refused, again, doomed_stopping, doomed_halting, doomed_claiming, Control, step_at, begin_at,
  Registration, Move, goes_on, calls, move, moves, first_control,
}
use net_port.Control.Locks.{holds, IsOwned, lock-held}
use net_port.Control.Kept.{
  SameLists, place_cases, step_at-SameLists, calls-SameLists, destructs-SameLists,
}
use net_port.Control.Others.{mover, move-others, same_number}

holds-alone :
    (s : Control) (t u : ℕ) (l : Lock)
    → IsOwned s
    → u ≢ t
    → holds (s.places t) l && holds (s.places u) l ≡ false
holds-alone s t u l v other = elim (Bool-cases (holds (s.places t) l)) [
  | inl h ↦ elim (Bool-cases (holds (s.places u) l)) [
    | inl k ↦ absurd (other (same_some (sym (v u l k) ∙ v t l h)))
    | inr k ↦ rw (h, k) refl
  ]
  | inr h ↦ rw h refl
]

inside-holds : (p : Place) (r : Registration) (l : Lock) → p ≡ inside r → holds p l ≡ true
inside-holds p r l e = ap (λ (q : Place). holds q l) e

-- A move changes the lists only with both locks.
move-SameLists :
    (m : Move) (s : Control) (l : Lock)
    → SameLists (move m s) s ⊎ (holds (s.places (mover m)) l ≡ true)
unfolding move move_on
move-SameLists (goes_on t) s l = elim (place_cases (s.places t)) [
  | inl (r, e) ↦ inr (inside-holds (s.places t) r l e)
  | inr h ↦ inl (
      if-cases (λ (c : Control). SameLists c s) s.terminated s _ (λ _. (refl, refl))
        (λ _.
          if-cases (λ (c : Control). SameLists c s) (s.destroyed && not (is_outside (s.places t))) _
            _ (λ _. (refl, refl)) (λ _. step_at-SameLists t (s.places t) s h)))
]
move-SameLists (calls t r) s l = inl (calls-SameLists t r s)
move-SameLists (destructs t) s l = inl (destructs-SameLists t s)

-- In every schedule of the two loops and of calls of InitSystem, DeinitSystem and the destructor,
-- for each of the two locks: the thread that moves next and another thread do not both hold it, and
-- the move leaves the list of systems and the list of polled sockets as they are unless the thread
-- that moves holds it. So the lists change only at a move of a thread that holds both locks, while
-- no other thread holds one.
pub moves-exclude :
    (ms : List Move) (m : Move) (u : ℕ) (l : Lock)
    → u ≢ mover m
    → let s = moves ms first_control in
      (holds (s.places (mover m)) l && holds (s.places u) l ≡ false)
      × (SameLists (move m s) s ⊎ (holds (s.places (mover m)) l ≡ true))
moves-exclude ms m u l other =
    let s = moves ms first_control in
    (
      holds-alone s (mover m) u l (moves-IsOwned ms first_control first_control-IsOwned) other,
      move-SameLists m s l,
    )

-- A thread that was refused, also in a further call or in the destructor
abbrev is_refused : Place → Bool
is_refused refused = true
is_refused (again _) = true
is_refused doomed_stopping = true
is_refused doomed_halting = true
is_refused doomed_claiming = true
is_refused _ = false

refused-holds : (p : Place) (l : Lock) → is_refused p ≡ true → holds p l ≡ true
refused-holds refused l e = refl
refused-holds (again r) l e = refl
refused-holds doomed_stopping l e = refl
refused-holds doomed_halting l e = refl
refused-holds doomed_claiming l e = refl
refused-holds _ l e = absurd (ground arith)

step_at-refused :
    (t : ℕ) (p : Place) (s : Control)
    → s.places t ≡ p
    → IsOwned s
    → is_refused p ≡ true
    → is_refused ((step_at t p s).places t) ≡ true
unfolding step_at
step_at-refused t refused s e v h = ap is_refused e
step_at-refused t (again r) s e v h =
    ap (λ (c : Control). is_refused (c.places t))
      (lock-held t t controllock (again r) s
        (v t controllock (ap (λ (p : Place). holds p controllock) e)))
    ∙ ap is_refused e
step_at-refused t doomed_stopping s e v h = ground arith
step_at-refused t doomed_halting s e v h = ground arith
step_at-refused t doomed_claiming s e v h =
    ap (λ (c : Control). is_refused (c.places t))
      (lock-held t t receivelock doomed_claiming s
        (v t receivelock (ap (λ (p : Place). holds p receivelock) e)))
    ∙ ap is_refused e
step_at-refused t _ s e v h = absurd (ground arith)

begin_at-refused :
    (t : ℕ) (r : Registration) (p : Place) (s : Control)
    → s.places t ≡ p
    → is_refused p ≡ true
    → is_refused ((begin_at t r p s).places t) ≡ true
unfolding begin_at
begin_at-refused t r refused s e h = ground arith
begin_at-refused t r (again q) s e h = ap is_refused e
begin_at-refused t r doomed_stopping s e h = ap is_refused e
begin_at-refused t r doomed_halting s e h = ap is_refused e
begin_at-refused t r doomed_claiming s e h = ap is_refused e
begin_at-refused t r _ s e h = absurd (ground arith)

destruct_at-refused :
    (t : ℕ) (p : Place) (s : Control)
    → s.places t ≡ p
    → is_refused p ≡ true
    → is_refused ((destruct_at t p s).places t) ≡ true
unfolding destruct_at
destruct_at-refused t idle s e h = absurd (ground arith)
destruct_at-refused t refused s e h = ground arith
destruct_at-refused t _ s e h = ap is_refused e ∙ h

refused_outside : (p : Place) → is_refused p ≡ true → is_outside p ≡ true
refused_outside refused h = refl
refused_outside (again r) h = refl
refused_outside doomed_stopping h = refl
refused_outside doomed_halting h = refl
refused_outside doomed_claiming h = refl
refused_outside _ h = absurd (ground arith)

-- A refused thread stays one by its own moves.
mover-refused :
    (m : Move) (s : Control)
    → IsOwned s
    → is_refused (s.places (mover m)) ≡ true
    → is_refused ((move m s).places (mover m)) ≡ true
unfolding move move_on
mover-refused (goes_on t) s v h =
    if-cases (λ (c : Control). is_refused (c.places t) ≡ true) s.terminated s _ (λ _. h)
      (λ _.
        if-cases (λ (c : Control). is_refused (c.places t) ≡ true)
          (s.destroyed && not (is_outside (s.places t))) _ _
          (λ b. let out = refused_outside (s.places t) h in absurd (ground (arith, b, out)))
          (λ _. step_at-refused t (s.places t) s refl v h))
mover-refused (calls t r) s v h =
    if-cases (λ (c : Control). is_refused (c.places t) ≡ true) s.terminated s _ (λ _. h)
      (λ _. begin_at-refused t r (s.places t) s refl h)
mover-refused (destructs t) s v h =
    if-cases (λ (c : Control). is_refused (c.places t) ≡ true) s.terminated s _ (λ _. h)
      (λ _. destruct_at-refused t (s.places t) s refl h)

move-refused :
    (m : Move) (s : Control) (t : ℕ)
    → IsOwned s
    → is_refused (s.places t) ≡ true
    → is_refused ((move m s).places t) ≡ true
move-refused m s t v h = elim (Bool-cases (t == mover m)) [
  | inl e ↦
      let here : t ≡ mover m = same_number t (mover m) e in
      ap (λ (u : ℕ). is_refused ((move m s).places u)) here
      ∙ mover-refused m s v (ap (λ (u : ℕ). is_refused (s.places u)) (sym here) ∙ h)
  | inr e ↦ ap is_refused (move-others m s t e) ∙ h
]

refused-alone :
    (s : Control) (t u : ℕ) (l : Lock)
    → IsOwned s
    → is_refused (s.places t) ≡ true
    → u ≢ t
    → holds (s.places u) l ≡ false
refused-alone s t u l v h other = elim (Bool-cases (holds (s.places u) l)) [
  | inl k ↦ absurd (other (same_some (sym (v u l k) ∙ v t l (refused-holds (s.places t) l h))))
  | inr k ↦ k
]

moves_from-refused :
    (ms : List Move) (s : Control) (t u : ℕ) (l : Lock)
    → IsOwned s
    → is_refused (s.places t) ≡ true
    → u ≢ t
    → holds ((moves ms s).places u) l ≡ false
unfolding moves
moves_from-refused [] s t u l v h other = refused-alone s t u l v h other
moves_from-refused (m ∷ ms) s t u l v h other =
    moves_from-refused ms (move m s) t u l (move-IsOwned m s v) (move-refused m s t v h) other

-- From a state in which every lock belongs to the thread that stands where it is held: once a caller
-- of InitSystem has been refused, no other thread ever holds one of the locks again, whatever the
-- schedule.
pub moves-refused :
    (ms : List Move) (s : Control) (t u : ℕ) (l : Lock)
    → IsOwned s
    → s.places t ≡ refused
    → u ≢ t
    → holds ((moves ms s).places u) l ≡ false
moves-refused ms s t u l v e other = moves_from-refused ms s t u l v (ap is_refused e) other
