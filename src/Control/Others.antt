-- ===== src/Control/Others.antt =====
-- A move of `IMEIControl` leaves the other threads where they are.
use net_port.Common.{
  ℕ, ◌≡◌, ◌∙◌, ap, refl, Bool, true, false, ◌&&◌, not, ◌==◌, if◌then◌else◌, if-cases, arith,
}
use net_port.Control.{
  Place, start, testing, top, second, third, waiting, ending, ended, idle, raised, half, inside,
  refused, again, doomed_stopping, doomed_halting, doomed_claiming, finished, leaving, lowering,
  stopping, halting, claiming, claimed, detaching, releasing, broken, Control, lock, unlock, work,
  step_at, breaks, is_outside, begin_at, destruct_at, Registration, init_system, deinit_system,
  Move, goes_on, calls, destructs, move_on, move,
}

step_at-others :
    (t u : ℕ) (p : Place) (s : Control) → u == t ≡ false → (step_at t p s).places u ≡ s.places u
unfolding step_at lock unlock work
step_at-others t u (start l) s e = ground arith
step_at-others t u (testing l a) s e = ground arith
step_at-others t u (ending l a) s e = ground arith
step_at-others t u ended s e = refl
step_at-others t u (top l true) s e = ground arith
step_at-others t u (top l false) s e = ground arith
step_at-others t u (second l true) s e = ground arith
step_at-others t u (second l false) s e = ground arith
step_at-others t u (waiting l) s e = ground arith
step_at-others t u (third l a) s e = ground arith
step_at-others t u idle s e = refl
step_at-others t u (raised r) s e = ground arith
step_at-others t u (half r) s e = ground arith
step_at-others t u (inside (init_system x)) s e = ground arith
step_at-others t u (inside (deinit_system x)) s e = ground arith
step_at-others t u refused s e = refl
step_at-others t u (again r) s e = ground arith
step_at-others t u doomed_stopping s e = ground arith
step_at-others t u doomed_halting s e = ground arith
step_at-others t u doomed_claiming s e = ground arith
step_at-others t u finished s e = ground arith
step_at-others t u leaving s e = ground arith
step_at-others t u lowering s e = ground arith
step_at-others t u stopping s e = ground arith
step_at-others t u halting s e = ground arith
step_at-others t u claiming s e = ground arith
step_at-others t u claimed s e = ground arith
step_at-others t u detaching s e = ground arith
step_at-others t u releasing s e = ground arith
step_at-others t u broken s e = refl

begin_at-others :
    (t u : ℕ) (r : Registration) (p : Place) (s : Control)
    → u == t ≡ false
    → (begin_at t r p s).places u ≡ s.places u
unfolding begin_at
begin_at-others t u r idle s e = ground arith
begin_at-others t u r refused s e = ground arith
begin_at-others t u r _ s e = refl

destruct_at-others :
    (t u : ℕ) (p : Place) (s : Control) → u == t ≡ false → (destruct_at t p s).places u ≡ s.places u
unfolding destruct_at
destruct_at-others t u idle s e = ground arith
destruct_at-others t u refused s e = ground arith
destruct_at-others t u _ s e = refl

-- The thread that moves.
abbrev pub mover : Move → ℕ
mover (goes_on t) = t
mover (calls t r) = t
mover (destructs t) = t

move_on-others :
    (m : Move) (s : Control) (u : ℕ) → u == mover m ≡ false → (move_on m s).places u ≡ s.places u
unfolding move_on
move_on-others (goes_on t) s u e =
    if-cases (λ (r : Control). r.places u ≡ s.places u)
      (s.destroyed && not (is_outside (s.places t))) (breaks t s) (step_at t (s.places t) s)
      (λ _. ground arith) (λ _. step_at-others t u (s.places t) s e)
move_on-others (calls t r) s u e = begin_at-others t u r (s.places t) s e
move_on-others (destructs t) s u e = destruct_at-others t u (s.places t) s e

pub move-others :
    (m : Move) (s : Control) (u : ℕ) → u == mover m ≡ false → (move m s).places u ≡ s.places u
unfolding move
move-others m s u e =
    if-cases (λ (r : Control). r.places u ≡ s.places u) s.terminated s (move_on m s) (λ _. refl)
      (λ _. move_on-others m s u e)

-- In no call, so that one may begin
abbrev pub is_idle : Place → Bool
is_idle idle = true
is_idle refused = true
is_idle _ = false

pub begin_at-busy :
    (t : ℕ) (r : Registration) (p : Place) (s : Control) → is_idle p ≡ false → begin_at t r p s ≡ s
unfolding begin_at
begin_at-busy t r idle s h = absurd (ground arith)
begin_at-busy t r refused s h = absurd (ground arith)
begin_at-busy t r _ s h = refl

pub destruct_at-busy : (t : ℕ) (p : Place) (s : Control) → is_idle p ≡ false → destruct_at t p s ≡ s
unfolding destruct_at
destruct_at-busy t idle s h = absurd (ground arith)
destruct_at-busy t refused s h = absurd (ground arith)
destruct_at-busy t _ s h = refl

move_on-stuck :
    (m : Move) (s : Control) (p : Place)
    → s.places (mover m) ≡ p
    → is_idle p ≡ false
    → (s.destroyed && not (is_outside p)) ≡ false
    → step_at (mover m) p s ≡ s
    → move_on m s ≡ s
unfolding move_on
move_on-stuck (goes_on t) s p e busy free stuck =
    ap (λ (q : Place). if s.destroyed && not (is_outside q) then breaks t s else step_at t q s) e
    ∙ rw free stuck
move_on-stuck (calls t r) s p e busy free stuck =
    ap (λ (q : Place). begin_at t r q s) e ∙ begin_at-busy t r p s busy
move_on-stuck (destructs t) s p e busy free stuck =
    ap (λ (q : Place). destruct_at t q s) e ∙ destruct_at-busy t p s busy

-- A thread whose step changes nothing, inside the calls and loops, changes nothing by a move.
pub move-stuck :
    (m : Move) (s : Control) (p : Place)
    → s.places (mover m) ≡ p
    → is_idle p ≡ false
    → (s.destroyed && not (is_outside p)) ≡ false
    → step_at (mover m) p s ≡ s
    → move m s ≡ s
unfolding move
move-stuck m s p e busy free stuck =
    if-cases (λ (r : Control). r ≡ s) s.terminated s (move_on m s) (λ _. refl)
      (λ _. move_on-stuck m s p e busy free stuck)

pub same_number : (t u : ℕ) → t == u ≡ true → t ≡ u
same_number t u e = ground arith
