-- ===== src/Control/Response.antt =====
-- A loop of `IMEIControl` gives its lock up to a call that is pending.
use net_port.Common.{
  All, ℕ, suc, ◌+◌, ◌≤◌, ◌≡◌, ◌≢◌, ◌∙◌, sym, ap, refl, Bool, true, false, ◌&&◌, not, List, [], ◌∷◌,
  ◌++◌, Option, none, ◌==◌, if◌then◌else◌, if-cases, arith, Bool-cases, inl, inr, ◌⊎◌,
}
use net_port.Control.{
  Lock, Place, testing, top, second, third, ending, Control, is_owner, breaks, is_outside, at_place,
  unlock, step_at, go_on, Move, goes_on, calls, destructs, move_on, move, moves, first_control,
}
use net_port.Control.Locks.{holds, IsOwned, true≢false}
use net_port.Control.Owned.{moves-IsOwned, first_control-IsOwned, move-IsOwned, same_lock_refl}
use net_port.Control.Others.{move-others, same_number, is_idle, begin_at-busy, destruct_at-busy}
use net_port.Control.Counting.{in_call, IsCounting, move-IsCounting, moves-IsCounting}
use net_port.Control.Whole.{IsWhole, spares, move-IsWhole, moves-IsWhole, owner_refl}

-- Where a loop with the lock and with access stands, and the moves that it makes to give it up.
pub data Rest : Type 0 where
  at_top at_testing at_third at_second : Rest

abbrev pub place_of : Lock → Rest → Place
place_of l at_top = top l true
place_of l at_testing = testing l true
place_of l at_third = third l true
place_of l at_second = second l true

abbrev pub needs : Rest → ℕ
needs at_top = 1
needs at_testing = 2
needs at_third = 3
needs at_second = 4

abbrev pub next_rest : Rest → Rest
next_rest at_second = at_third
next_rest at_third = at_testing
next_rest _ = at_top

-- The moves that the thread makes in its loop
abbrev pub own_moves : ℕ → List Move → ℕ
own_moves t [] = 0
own_moves t (goes_on u ∷ ms) = (if u == t then 1 else 0) + own_moves t ms
own_moves t (_ ∷ ms) = own_moves t ms

-- All through the schedule the thread `u` is in a call, and nobody destroys the control.
abbrev pub IsPending : ℕ → List Move → Control → Type 0
IsPending u [] s = Unit
IsPending u (m ∷ ms) s =
    (in_call (s.places u) ≡ true) × (spares m ≡ true) × IsPending u ms (move m s)

counted-raised :
    (u : ℕ) (s : Control) → IsCounting s → in_call (s.places u) ≡ true → s.controlmod ≢ 0
counted-raised u s counts calling none_raised =
    let one = counts (u ∷ []) (refl, tt) (calling, tt) in omega (arith, one, none_raised)

-- At some moment of the schedule the lock is free.
abbrev pub IsFreed : Lock → List Move → Control → Type 0
IsFreed l ms s =
    (before : List Move) × (after : List Move) × (ms ≡ before ++ after)
    × ((moves before s).locks l ≡ none)

-- A step of a thread in a control that stands.
move-steps :
    (t : ℕ) (s : Control) (p : Place)
    → IsWhole s
    → s.places t ≡ p
    → move (goes_on t) s ≡ step_at t p s
unfolding move move_on go_on
move-steps t s p (_, _, standing, alive, _) e =
    if-cases (λ (r : Control). r ≡ step_at t p s) s.terminated s _
      (λ b. absurd (true≢false (sym b ∙ alive)))
      (λ _.
        if-cases (λ (r : Control). r ≡ step_at t p s) (s.destroyed && not (is_outside (s.places t)))
          (breaks t s) _ (λ b. absurd (ground arith)) (λ _. ap (λ (q : Place). step_at t q s) e))

needs_more : (a : Rest) → a ≢ at_top → needs a ≡ suc (needs (next_rest a))
needs_more at_top h = absurd (h refl)
needs_more at_testing h = refl
needs_more at_third h = refl
needs_more at_second h = refl

needs_some : (a : Rest) → 1 ≤ needs a
needs_some at_top = omega arith
needs_some at_testing = omega arith
needs_some at_third = omega arith
needs_some at_second = omega arith

top_cases : (a : Rest) → (a ≡ at_top) ⊎ (a ≢ at_top)
top_cases at_top = inl refl
top_cases at_testing = inr (λ e. ground (arith, e))
top_cases at_third = inr (λ e. ground (arith, e))
top_cases at_second = inr (λ e. ground (arith, e))

-- A move is one of the thread in its loop, or not.
own_cases :
    (t : ℕ) (m : Move) (ms : List Move)
    → ((m ≡ goes_on t) × (own_moves t (m ∷ ms) ≡ suc (own_moves t ms)))
      ⊎ ((own_moves t (m ∷ []) ≡ 0) × (own_moves t (m ∷ ms) ≡ own_moves t ms))
own_cases t (goes_on u) ms = elim (Bool-cases (u == t)) [
  | inl h ↦ inl (ap goes_on (same_number u t h), ground (arith, h))
  | inr h ↦ inr (ground (arith, h), ground (arith, h))
]
own_cases t (calls u r) ms = inr (refl, refl)
own_cases t (destructs u) ms = inr (refl, refl)

later-IsFreed :
    (l : Lock) (m : Move) (ms : List Move) (s : Control)
    → IsFreed l ms (move m s)
    → IsFreed l (m ∷ ms) s
unfolding moves
later-IsFreed l m ms s (before, after, e, free) =
    (m ∷ before, after, ap (λ (xs : List Move). m ∷ xs) e, free)

placed : (t : ℕ) (p : Place) (s : Control) → (at_place t p s).places t ≡ p
placed t p s = ap (λ (b : Bool). if b then p else s.places t) (owner_refl t)

module _ (t : ℕ) (l : Lock) where
  top-frees :
      (s : Control)
      → IsWhole s
      → IsOwned s
      → s.controlmod ≢ 0
      → s.places t ≡ top l true
      → (move (goes_on t) s).locks l ≡ none
  unfolding step_at unlock
  top-frees s w own pending e =
      ap (λ (r : Control). r.locks l) (move-steps t s (top l true) w e)
      ∙ if-cases (λ (r : Control). r.locks l ≡ none) (s.controlmod == 0) _ _
          (λ z. absurd (pending (same_number s.controlmod 0 z)))
          (λ _.
            if-cases (λ (r : Control). r.locks l ≡ none) (is_owner (s.locks l) t) _ (breaks t s)
              (λ _. ap (λ (b : Bool). if b then none else s.locks l) (same_lock_refl l))
              (λ no_owner.
                let held = own t l (ap (λ (p : Place). holds p l) e ∙ same_lock_refl l) in
                absurd (
                  true≢false (
                    sym (owner_refl t)
                    ∙ sym (ap (λ (o : Option ℕ). is_owner o t) held)
                    ∙ no_owner))))

  rest-moves :
      (a : Rest) (s : Control)
      → IsWhole s
      → (a ≢ at_top)
      → s.places t ≡ place_of l a
      → (move (goes_on t) s).places t ≡ place_of l (next_rest a)
  unfolding step_at
  rest-moves at_top s w no_top e = absurd (no_top refl)
  rest-moves at_testing s w no_top e =
      ap (λ (r : Control). r.places t) (move-steps t s (testing l true) w e)
      ∙ let (_, run, _, _, _) = w in
        ap
          (λ (b : Bool).
            (if b then at_place t (top l true) s else at_place t (ending l true) s).places t)
          (run l)
        ∙ placed t (top l true) s
  rest-moves at_third s w no_top e =
      ap (λ (r : Control). r.places t) (move-steps t s (third l true) w e)
      ∙ placed t (testing l true) s
  rest-moves at_second s w no_top e =
      ap (λ (r : Control). r.places t) (move-steps t s (second l true) w e)
      ∙ placed t (third l true) s

  rest_busy : (a : Rest) → is_idle (place_of l a) ≡ false
  rest_busy at_top = refl
  rest_busy at_testing = refl
  rest_busy at_third = refl
  rest_busy at_second = refl

  -- A move that is not one of the thread in its loop leaves it where it is.
  others-stay :
      (m : Move) (a : Rest) (s : Control)
      → own_moves t (m ∷ []) ≡ 0
      → s.places t ≡ place_of l a
      → (move m s).places t ≡ place_of l a
  unfolding move move_on
  others-stay (goes_on u) a s none_own e =
      move-others (goes_on u) s t (ground (arith, none_own)) ∙ e
  others-stay (calls u r) a s none_own e = elim (Bool-cases (t == u)) [
    | inl h ↦
        let here : s.places u ≡ place_of l a = ap (s.places) (sym (same_number t u h)) ∙ e in
        if-cases (λ (q : Control). q.places t ≡ place_of l a) s.terminated s _ (λ _. e)
          (λ _.
            ap (λ (q : Control). q.places t)
              (begin_at-busy u r (s.places u) s (ap is_idle here ∙ rest_busy a))
            ∙ e)
    | inr h ↦ move-others (calls u r) s t h ∙ e
  ]
  others-stay (destructs u) a s none_own e = elim (Bool-cases (t == u)) [
    | inl h ↦
        let here : s.places u ≡ place_of l a = ap (s.places) (sym (same_number t u h)) ∙ e in
        if-cases (λ (q : Control). q.places t ≡ place_of l a) s.terminated s _ (λ _. e)
          (λ _.
            ap (λ (q : Control). q.places t)
              (destruct_at-busy u (s.places u) s (ap is_idle here ∙ rest_busy a))
            ∙ e)
    | inr h ↦ move-others (destructs u) s t h ∙ e
  ]

  loop-IsFreed :
      (ms : List Move) (u : ℕ) (a : Rest) (s : Control)
      → IsWhole s
      → IsOwned s
      → IsCounting s
      → s.places t ≡ place_of l a
      → IsPending u ms s
      → needs a ≤ own_moves t ms
      → IsFreed l ms s
  unfolding moves
  loop-IsFreed [] u a s w own counts e pending enough =
      absurd (let some_need = needs_some a in omega (arith, some_need, enough))
  loop-IsFreed (m ∷ ms) u a s w own counts e (calling, spared, pending) enough =
      elim (own_cases t m ms) [
        | inl (own_one, count) ↦ elim (top_cases a) [
          | inl at_end ↦ (
            m ∷ [],
            ms,
            refl,
            ap (λ (x : Move). (move x s).locks l) own_one
                ∙ top-frees s w own (counted-raised u s counts calling)
                    (e ∙ ap (place_of l) at_end),
          )
          | inr no_top ↦ later-IsFreed l m ms s (
              loop-IsFreed ms u (next_rest a) (move m s) (move-IsWhole m s w own spared)
                (move-IsOwned m s own) (move-IsCounting m s counts)
                (ap (λ (x : Move). (move x s).places t) own_one ∙ rest-moves a s w no_top e) pending
                (let more = needs_more a no_top in omega (arith, more, count, enough)))
        ]
        | inr (none_own, count) ↦ later-IsFreed l m ms s (
            loop-IsFreed ms u a (move m s) (move-IsWhole m s w own spared) (move-IsOwned m s own)
              (move-IsCounting m s counts) (others-stay m a s none_own e) pending
              (omega (arith, count, enough)))
      ]

-- After any schedule without the destructor, in every further one all through which some thread is in
-- a call of InitSystem or DeinitSystem and nobody calls the destructor: a loop that has its lock and
-- access to the lists gives the lock up by the time that it has made four moves, and fewer if it
-- stands nearer to its first test, whatever the other threads do in between.
pub moves-IsFreed :
    (earlier ms : List Move) (t u : ℕ) (l : Lock) (a : Rest)
    → All (λ m. spares m ≡ true) earlier
    → (moves earlier first_control).places t ≡ place_of l a
    → IsPending u ms (moves earlier first_control)
    → needs a ≤ own_moves t ms
    → IsFreed l ms (moves earlier first_control)
moves-IsFreed earlier ms t u l a es =
    loop-IsFreed t l ms u a (moves earlier first_control) (moves-IsWhole earlier es)
      (moves-IsOwned earlier first_control first_control-IsOwned) (moves-IsCounting earlier)
