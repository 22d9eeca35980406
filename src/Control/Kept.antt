-- ===== src/Control/Kept.antt =====
-- Only the work of a call changes the lists of `IMEIControl`.
use net_port.Common.{Bool, ℕ, ◌≡◌, refl, true, false, if-cases, arith, none, some, inl, inr, ◌⊎◌}
use net_port.Control.{
  Place, start, testing, top, second, third, waiting, ending, ended, idle, raised, half, inside,
  refused, again, doomed_stopping, doomed_halting, doomed_claiming, finished, leaving, lowering,
  stopping, halting, claiming, claimed, detaching, releasing, broken, Control, lock, unlock,
  step_at, begin_at, destruct_at, Registration, calls, destructs, move_on, move, at_place, set_lock,
  is_owner, receivelock, controllock, Lock,
}

-- The lists of one control are those of another.
abbrev pub SameLists : Control → Control → Type 0
SameLists r s = (r.systems ≡ s.systems) × (r.systemquery ≡ s.systemquery)

-- Inside a call, with both locks
abbrev pub is_inside : Place → Bool
is_inside (inside _) = true
is_inside _ = false

lock-SameLists : (t : ℕ) (l : Lock) (next : Place) (s : Control) → SameLists (lock t l next s) s
unfolding lock
lock-SameLists t l next s =
    elim (s.locks l)
      as (λ o.
        SameLists (elim o [ none ↦ at_place t next (set_lock l (some t) s) | some _ ↦ s ]) s) [
          | none ↦ (refl, refl)
          | some _ ↦ (refl, refl)
        ]

unlock-SameLists : (t : ℕ) (l : Lock) (next : Place) (s : Control) → SameLists (unlock t l next s) s
unfolding unlock
unlock-SameLists t l next s =
    if-cases (λ (r : Control). SameLists r s) (is_owner (s.locks l) t) _ _ (λ _. (refl, refl))
      (λ _. (refl, refl))

-- A step outside the calls leaves the lists.
pub step_at-SameLists :
    (t : ℕ) (p : Place) (s : Control) → is_inside p ≡ false → SameLists (step_at t p s) s
unfolding step_at
step_at-SameLists t (start l) s v = lock-SameLists t l (testing l true) s
step_at-SameLists t (testing l a) s v =
    if-cases (λ (r : Control). SameLists r s) (s.running l) _ _ (λ _. (refl, refl))
      (λ _. (refl, refl))
step_at-SameLists t (ending l a) s v = unlock-SameLists t l ended s
step_at-SameLists t ended s v = (refl, refl)
step_at-SameLists t (top l true) s v =
    if-cases (λ (r : Control). SameLists r s) _ _ _ (λ _. (refl, refl))
      (λ _. unlock-SameLists t l (second l false) s)
step_at-SameLists t (top l false) s v = (refl, refl)
step_at-SameLists t (second l true) s v = (refl, refl)
step_at-SameLists t (second l false) s v =
    if-cases (λ (r : Control). SameLists r s) _ _ _ (λ _. (refl, refl)) (λ _. (refl, refl))
step_at-SameLists t (waiting l) s v = lock-SameLists t l (third l true) s
step_at-SameLists t (third l a) s v = (refl, refl)
step_at-SameLists t idle s v = (refl, refl)
step_at-SameLists t (raised r) s v = lock-SameLists t controllock (half r) s
step_at-SameLists t (half r) s v = lock-SameLists t receivelock (inside r) s
step_at-SameLists t refused s v = (refl, refl)
step_at-SameLists t (again r) s v = lock-SameLists t controllock (again r) s
step_at-SameLists t doomed_stopping s v = (refl, refl)
step_at-SameLists t doomed_halting s v = (refl, refl)
step_at-SameLists t doomed_claiming s v = lock-SameLists t receivelock doomed_claiming s
step_at-SameLists t finished s v = unlock-SameLists t receivelock leaving s
step_at-SameLists t leaving s v = unlock-SameLists t controllock lowering s
step_at-SameLists t lowering s v = (refl, refl)
step_at-SameLists t stopping s v = (refl, refl)
step_at-SameLists t halting s v = (refl, refl)
step_at-SameLists t claiming s v = lock-SameLists t receivelock claimed s
step_at-SameLists t claimed s v = lock-SameLists t controllock detaching s
step_at-SameLists t detaching s v = unlock-SameLists t receivelock releasing s
step_at-SameLists t releasing s v = unlock-SameLists t controllock idle s
step_at-SameLists t broken s v = (refl, refl)
step_at-SameLists t (inside r) s v = absurd (ground arith)

pub place_cases : (p : Place) → ((r : Registration) × (p ≡ inside r)) ⊎ (is_inside p ≡ false)
place_cases (inside r) = inl (r, refl)
place_cases _ = inr refl

begin_at-SameLists :
    (t : ℕ) (r : Registration) (p : Place) (s : Control) → SameLists (begin_at t r p s) s
unfolding begin_at
begin_at-SameLists t r idle s = (refl, refl)
begin_at-SameLists t r refused s = (refl, refl)
begin_at-SameLists t r _ s = (refl, refl)

destruct_at-SameLists : (t : ℕ) (p : Place) (s : Control) → SameLists (destruct_at t p s) s
unfolding destruct_at
destruct_at-SameLists t idle s = (refl, refl)
destruct_at-SameLists t refused s = (refl, refl)
destruct_at-SameLists t _ s = (refl, refl)

-- The beginning of a call leaves the lists.
pub calls-SameLists : (t : ℕ) (r : Registration) (s : Control) → SameLists (move (calls t r) s) s
unfolding move move_on
calls-SameLists t r s =
    if-cases (λ (c : Control). SameLists c s) s.terminated s _ (λ _. (refl, refl))
      (λ _. begin_at-SameLists t r (s.places t) s)

pub destructs-SameLists : (t : ℕ) (s : Control) → SameLists (move (destructs t) s) s
unfolding move move_on
destructs-SameLists t s =
    if-cases (λ (c : Control). SameLists c s) s.terminated s _ (λ _. (refl, refl))
      (λ _. destruct_at-SameLists t (s.places t) s)
