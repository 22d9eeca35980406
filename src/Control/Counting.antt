-- ===== src/Control/Counting.antt =====
-- The counter `controlmod` of `IMEIControl` counts the calls.
use net_port.Control.{
  first_place, Place, start, testing, top, second, third, waiting, ending, ended, idle, raised,
  half, inside, refused, again, doomed_stopping, doomed_halting, doomed_claiming, finished, leaving,
  lowering, stopping, halting, claiming, claimed, detaching, releasing, broken, Control, breaks,
  is_outside, lock, unlock, work, step_at, go_on, begin_at, destruct_at, Registration, init_system,
  deinit_system, Move, goes_on, calls, destructs, move_on, move, moves, includes, without,
  first_control,
}
use net_port.Common.{
  ℕ, ◌+◌, ◌-◌, ◌≤◌, ◌≡◌, ◌∙◌, sym, ap, subst, refl, Bool, true, false, ◌&&◌, not, List, [], ◌∷◌,
  ◌==◌, if-cases, arith, Bool-cases, inl, inr, length, All,
}
use net_port.Control.Others.{move-others, mover, same_number}
use net_port.Control.Lists.{AreOnce, without-AreOnce, without-absent}
use net_port.Control.Locks.{true≢false}

-- In a call of InitSystem or DeinitSystem, between the two changes of the counter. A refused call
-- has left the function, but the counter does not come down, whatever that thread does next.
abbrev pub in_call : Place → Bool
in_call (raised _) = true
in_call (half _) = true
in_call (inside _) = true
in_call refused = true
in_call (again _) = true
in_call doomed_stopping = true
in_call doomed_halting = true
in_call doomed_claiming = true
in_call finished = true
in_call leaving = true
in_call lowering = true
in_call _ = false

-- What a move does to the counter, with the thread that moves.
pub data Changes (p q : Place) (c d : ℕ) : Type 0 where
  same : d ≡ c → (in_call q ≡ true → in_call p ≡ true) → Changes p q c d
  rises : d ≡ c + 1 → Changes p q c d
  falls : d ≡ c - 1 → in_call p ≡ true → in_call q ≡ false → Changes p q c d

step_at-Changes :
    (t : ℕ) (p : Place) (s : Control)
    → s.places t ≡ p
    → Changes p ((step_at t p s).places t) s.controlmod (step_at t p s).controlmod
unfolding step_at lock unlock work
step_at-Changes t lowering s e = falls refl refl (ground arith)
step_at-Changes t (start l) s e = same (ground arith) (ground arith)
step_at-Changes t (testing l a) s e = same (ground arith) (ground arith)
step_at-Changes t (ending l a) s e = same (ground arith) (ground arith)
step_at-Changes t ended s e = same (ground arith) (ground arith)
step_at-Changes t (top l true) s e = same (ground arith) (ground arith)
step_at-Changes t (top l false) s e = same (ground arith) (ground arith)
step_at-Changes t (second l true) s e = same (ground arith) (ground arith)
step_at-Changes t (second l false) s e = same (ground arith) (ground arith)
step_at-Changes t (waiting l) s e = same (ground arith) (ground arith)
step_at-Changes t (third l a) s e = same (ground arith) (ground arith)
step_at-Changes t idle s e = same (ground arith) (ground arith)
step_at-Changes t (raised r) s e = same (ground arith) (ground arith)
step_at-Changes t (half r) s e = same (ground arith) (ground arith)
step_at-Changes t (inside (init_system x)) s e = same (ground arith) (ground arith)
step_at-Changes t (inside (deinit_system x)) s e = same (ground arith) (ground arith)
step_at-Changes t refused s e = same (ground arith) (ground arith)
step_at-Changes t (again r) s e = same (ground arith) (ground arith)
step_at-Changes t doomed_stopping s e = same (ground arith) (ground arith)
step_at-Changes t doomed_halting s e = same (ground arith) (ground arith)
step_at-Changes t doomed_claiming s e = same (ground arith) (ground arith)
step_at-Changes t finished s e = same (ground arith) (ground arith)
step_at-Changes t leaving s e = same (ground arith) (ground arith)
step_at-Changes t stopping s e = same (ground arith) (ground arith)
step_at-Changes t halting s e = same (ground arith) (ground arith)
step_at-Changes t claiming s e = same (ground arith) (ground arith)
step_at-Changes t claimed s e = same (ground arith) (ground arith)
step_at-Changes t detaching s e = same (ground arith) (ground arith)
step_at-Changes t releasing s e = same (ground arith) (ground arith)
step_at-Changes t broken s e = same (ground arith) (ground arith)

begin_at-Changes :
    (t : ℕ) (r : Registration) (p : Place) (s : Control)
    → s.places t ≡ p
    → Changes p ((begin_at t r p s).places t) s.controlmod (begin_at t r p s).controlmod
unfolding begin_at
begin_at-Changes t r idle s e = rises refl
begin_at-Changes t r refused s e = rises refl
begin_at-Changes t r _ s e = same refl (λ h. sym (ap in_call e) ∙ h)

destruct_at-Changes :
    (t : ℕ) (p : Place) (s : Control)
    → s.places t ≡ p
    → Changes p ((destruct_at t p s).places t) s.controlmod (destruct_at t p s).controlmod
unfolding destruct_at
destruct_at-Changes t idle s e = same refl (ground arith)
destruct_at-Changes t refused s e = same refl (λ _. refl)
destruct_at-Changes t _ s e = same refl (λ h. sym (ap in_call e) ∙ h)

-- The change that a step of the state makes to the mover's place and the counter
abbrev ChangesBy : ℕ → Control → Control → Type 0
ChangesBy t s r = Changes (s.places t) (r.places t) s.controlmod r.controlmod

move-Changes : (m : Move) (s : Control) → ChangesBy (mover m) s (move m s)
unfolding move move_on go_on
move-Changes (goes_on t) s =
    if-cases (ChangesBy t s) s.terminated s _ (λ _. same refl (λ h. h))
      (λ _.
        if-cases (ChangesBy t s) (s.destroyed && not (is_outside (s.places t))) (breaks t s) _
          (λ _. same refl (ground arith)) (λ _. step_at-Changes t (s.places t) s refl))
move-Changes (calls t r) s =
    if-cases (ChangesBy t s) s.terminated s _ (λ _. same refl (λ h. h))
      (λ _. begin_at-Changes t r (s.places t) s refl)
move-Changes (destructs t) s =
    if-cases (ChangesBy t s) s.terminated s _ (λ _. same refl (λ h. h))
      (λ _. destruct_at-Changes t (s.places t) s refl)

abbrev pub AllInCall : Control → List ℕ → Type 0
AllInCall s us = All (λ u. in_call (s.places u) ≡ true) us

-- The counter is at least the number of threads that are in a call.
abbrev pub IsCounting : Control → Type 0
IsCounting s = (us : List ℕ) → AreOnce us → AllInCall s us → length us ≤ s.controlmod

module _ (m : Move) (s : Control) where
  -- Threads other than the mover were in a call before, if they are afterwards.
  before-InCall :
      (u : ℕ)
      → u == mover m ≡ false
      → in_call ((move m s).places u) ≡ true
      → in_call (s.places u) ≡ true
  before-InCall u other h = sym (ap in_call (move-others m s u other)) ∙ h

  all-InCall :
      (us : List ℕ)
      → (in_call ((move m s).places (mover m)) ≡ true → in_call (s.places (mover m)) ≡ true)
      → AllInCall (move m s) us
      → AllInCall s us
  all-InCall [] keeps vs = tt
  all-InCall (u ∷ us) keeps (v, vs) = (
    elim (Bool-cases (u == mover m)) [
      | inl h ↦
          let e : u ≡ mover m = same_number u (mover m) h in
          ap (λ (x : ℕ). in_call (s.places x)) e
          ∙ keeps (sym (ap (λ (x : ℕ). in_call ((move m s).places x)) e) ∙ v)
      | inr h ↦ before-InCall u h v
    ],
    all-InCall us keeps vs,
  )

  without-InCall : (us : List ℕ) → AllInCall (move m s) us → AllInCall s (without us (mover m))
  without-InCall [] vs = tt
  without-InCall (u ∷ us) (v, vs) =
      if-cases (AllInCall s) (u == mover m) _ _ (λ _. without-InCall us vs)
        (λ h. (before-InCall u h v, without-InCall us vs))

  absent-InCall :
      (us : List ℕ)
      → in_call ((move m s).places (mover m)) ≡ false
      → AllInCall (move m s) us
      → includes us (mover m) ≡ false
  absent-InCall [] out vs = refl
  absent-InCall (u ∷ us) out (v, vs) =
      if-cases (λ (b : Bool). b ≡ false) (u == mover m) true (includes us (mover m))
        (λ h.
          let e : u ≡ mover m = same_number u (mover m) h in
          absurd (true≢false (sym v ∙ ap (λ (x : ℕ). in_call ((move m s).places x)) e ∙ out)))
        (λ _. absent-InCall us out vs)

length-without : (us : List ℕ) (t : ℕ) → AreOnce us → length us ≤ length (without us t) + 1
length-without [] t v = omega arith
length-without (u ∷ us) t (h, v) =
    if-cases (λ (xs : List ℕ). length (u ∷ us) ≤ length xs + 1) (u == t) _ _
      (λ e.
        let at : u ≡ t = same_number u t e in
        let kept = without-absent us t (ap (λ (x : ℕ). includes us x) (sym at) ∙ h) in
        omega (arith, ap (λ (xs : List ℕ). length xs) kept))
      (λ _. let ih = length-without us t v in omega (arith, ih))

pub move-IsCounting : (m : Move) (s : Control) → IsCounting s → IsCounting (move m s)
move-IsCounting m s v us once all = elim (move-Changes m s) [
  | same c keeps ↦
      subst (λ (n : ℕ). length us ≤ n) (sym c) (v us once (all-InCall m s us keeps all))
  | rises c ↦
      let fewer =
        v (without us (mover m)) (without-AreOnce us (mover m) once) (without-InCall m s us all) in
      let more = length-without us (mover m) once in omega (arith, c, fewer, more)
  | falls c before out ↦
      let enough =
        v (mover m ∷ us) (absent-InCall m s us out all, once)
          (before, all-InCall m s us (λ h. absurd (true≢false (sym h ∙ out))) all) in
      omega (arith, c, enough)
]

moves_from-IsCounting : (ms : List Move) (s : Control) → IsCounting s → IsCounting (moves ms s)
unfolding moves
moves_from-IsCounting [] s v = v
moves_from-IsCounting (m ∷ ms) s v = moves_from-IsCounting ms (move m s) (move-IsCounting m s v)

first_place-outside : (u : ℕ) → in_call (first_place u) ≡ false
first_place-outside u = ground arith

first_control-IsCounting : IsCounting first_control
first_control-IsCounting [] once all = omega arith
first_control-IsCounting (u ∷ us) once (v, vs) = absurd (true≢false (sym v ∙ first_place-outside u))

pub moves-IsCounting : (ms : List Move) → IsCounting (moves ms first_control)
moves-IsCounting ms = moves_from-IsCounting ms first_control first_control-IsCounting

-- In every schedule, with the destructor too: of any threads, none named twice, that are all in a call,
-- those that were refused included, there are at most as many as controlmod counts. So it does not
-- come below 0, and while a call is on its way it is not 0.
pub moves-counted :
    (ms : List Move) (us : List ℕ)
    → AreOnce us
    → AllInCall (moves ms first_control) us
    → length us ≤ (moves ms first_control).controlmod
moves-counted ms us once all = moves-IsCounting ms us once all
