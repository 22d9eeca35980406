-- ===== src/Control/Lists.antt =====
-- The two lists of `IMEIControl`: the systems that the control loop serves and the sockets that the
-- receive loop polls.
use net_port.Common.{
  subst, ℕ, ◌≡◌, ◌∙◌, sym, ap, refl, false, ◌&&◌, not, List, [], ◌∷◌, ◌++◌, ◌==◌, if◌then◌else◌,
  if-cases, arith, inl, inr,
}
use mathlib.Core.List.{append-nil}
use net_port.Control.Kept.{SameLists, place_cases, step_at-SameLists}
use net_port.Control.{
  Place, idle, refused, finished, Control, includes, without, work, step_at, go_on, begin_at,
  destruct_at, Registration, init_system, deinit_system, Move, goes_on, calls, destructs, move_on,
  move, moves, first_control, is_outside, at_place, breaks,
}

-- The systems in the order in which they were registered; the list has the last one first.
abbrev pub in_order : List ℕ → List ℕ
in_order [] = []
in_order (x ∷ xs) = in_order xs ++ (x ∷ [])

abbrev pub AreOnce : List ℕ → Type 0
AreOnce [] = Unit
AreOnce (x ∷ xs) = (includes xs x ≡ false) × AreOnce xs

-- Each system is on the list once, and the sockets polled are those of the list.
abbrev pub AreLinked : Control → Type 0
AreLinked s = (s.systemquery ≡ in_order s.systems) × AreOnce s.systems

without-append : (xs ys : List ℕ) (x : ℕ) → without (xs ++ ys) x ≡ without xs x ++ without ys x
without-append [] ys x = refl
without-append (y ∷ xs) ys x =
    if-cases
      (λ (r : List ℕ).
        (if y == x then without (xs ++ ys) x else y ∷ without (xs ++ ys) x) ≡ r ++ without ys x)
      (y == x) (without xs x) (y ∷ without xs x) (λ e. rw e (without-append xs ys x))
      (λ e. rw e (ap (λ (r : List ℕ). y ∷ r) (without-append xs ys x)))

without-in_order : (xs : List ℕ) (x : ℕ) → without (in_order xs) x ≡ in_order (without xs x)
without-in_order [] x = refl
without-in_order (y ∷ xs) x =
    without-append (in_order xs) (y ∷ []) x
    ∙ ap (λ (r : List ℕ). r ++ without (y ∷ []) x) (without-in_order xs x)
    ∙ if-cases
        (λ (r : List ℕ). in_order (without xs x) ++ (if y == x then [] else y ∷ []) ≡ in_order r)
        (y == x) (without xs x) (y ∷ without xs x)
        (λ e. rw e (append-nil (in_order (without xs x)))) (λ e. rw e refl)

pub without-absent : (xs : List ℕ) (x : ℕ) → includes xs x ≡ false → without xs x ≡ xs
without-absent [] x h = refl
without-absent (y ∷ xs) x h = ground (arith, without-absent xs x)

includes-without :
    (xs : List ℕ) (x y : ℕ) → includes xs y ≡ false → includes (without xs x) y ≡ false
includes-without [] x y h = refl
includes-without (z ∷ xs) x y h = ground (arith, includes-without xs x y)

pub without-AreOnce : (xs : List ℕ) (x : ℕ) → AreOnce xs → AreOnce (without xs x)
without-AreOnce [] x v = tt
without-AreOnce (y ∷ xs) x (h, v) =
    if-cases AreOnce (y == x) _ _ (λ _. without-AreOnce xs x v)
      (λ _. (includes-without xs x y h, without-AreOnce xs x v))

work-AreLinked : (t : ℕ) (r : Registration) (s : Control) → AreLinked s → AreLinked (work t r s)
unfolding work
work-AreLinked t (init_system x) s (linked, once) =
    if-cases AreLinked (includes s.systems x) (at_place t refused s)
      (at_place t finished
        (record s { systems = x ∷ s.systems; systemquery = s.systemquery ++ (x ∷ []) }))
      (λ _. (linked, once)) (λ h. (ap (λ (ys : List ℕ). ys ++ (x ∷ [])) linked, (h, once)))
work-AreLinked t (deinit_system x) s (linked, once) = (
  if-cases (λ (ys : List ℕ). ys ≡ in_order (without s.systems x)) (includes s.systems x)
      (without s.systemquery x) s.systemquery
      (λ _. ap (λ (ys : List ℕ). without ys x) linked ∙ without-in_order s.systems x)
      (λ h. linked ∙ ap in_order (sym (without-absent s.systems x h))),
  without-AreOnce s.systems x once,
)

same-AreLinked : (r s : Control) → SameLists r s → AreLinked s → AreLinked r
same-AreLinked r s (e, f) (linked, once) =
    (f ∙ linked ∙ ap in_order (sym e), subst AreOnce (sym e) once)

step_at-AreLinked : (t : ℕ) (p : Place) (s : Control) → AreLinked s → AreLinked (step_at t p s)
unfolding step_at
step_at-AreLinked t p s v = elim (place_cases p) [
  | inl (r, e) ↦ subst (λ (q : Place). AreLinked (step_at t q s)) (sym e) (work-AreLinked t r s v)
  | inr h ↦ same-AreLinked (step_at t p s) s (step_at-SameLists t p s h) v
]

begin_at-AreLinked :
    (t : ℕ) (r : Registration) (p : Place) (s : Control)
    → AreLinked s
    → AreLinked (begin_at t r p s)
unfolding begin_at
begin_at-AreLinked t r idle s v = v
begin_at-AreLinked t r refused s v = v
begin_at-AreLinked t r _ s v = v

destruct_at-AreLinked :
    (t : ℕ) (p : Place) (s : Control) → AreLinked s → AreLinked (destruct_at t p s)
unfolding destruct_at
destruct_at-AreLinked t idle s v = v
destruct_at-AreLinked t refused s v = v
destruct_at-AreLinked t _ s v = v

move_on-AreLinked : (m : Move) (s : Control) → AreLinked s → AreLinked (move_on m s)
unfolding move_on go_on
move_on-AreLinked (goes_on t) s v =
    if-cases AreLinked (s.destroyed && not (is_outside (s.places t))) (breaks t s)
      (step_at t (s.places t) s) (λ _. v) (λ _. step_at-AreLinked t (s.places t) s v)
move_on-AreLinked (calls t r) s v = begin_at-AreLinked t r (s.places t) s v
move_on-AreLinked (destructs t) s v = destruct_at-AreLinked t (s.places t) s v

move-AreLinked : (m : Move) (s : Control) → AreLinked s → AreLinked (move m s)
unfolding move
move-AreLinked m s v =
    if-cases AreLinked s.terminated s (move_on m s) (λ _. v) (λ _. move_on-AreLinked m s v)

moves_from-AreLinked : (ms : List Move) (s : Control) → AreLinked s → AreLinked (moves ms s)
unfolding moves
moves_from-AreLinked [] s v = v
moves_from-AreLinked (m ∷ ms) s v = moves_from-AreLinked ms (move m s) (move-AreLinked m s v)

-- In every schedule of the loops, of calls of InitSystem and DeinitSystem with any systems, and of
-- the destructor: no system is on the list of the control loop twice, and the sockets that the
-- receive loop polls are those of the systems on that list, in the order in which they came.
pub moves-AreLinked : (ms : List Move) → AreLinked (moves ms first_control)
moves-AreLinked ms = moves_from-AreLinked ms first_control (refl, tt)
