-- ===== src/Schedule/Serial.antt =====
-- Every schedule of the threads is a sequence of whole turns on the data of the program.
use net_port.Common.{
  ℕ, ◌≡◌, ◌∙◌, refl, sym, ap, subst, true, false, ◌&&◌, not, List, [], ◌∷◌, ◌++◌, Option, none,
  some, ◌>>=◌, arith, inl, inr,
}
use net_port.Udp.{Host}
use net_port.System.{System}
use net_port.Arc4.{Source}
use net_port.Transfer.{Transfer}
use net_port.Udp.Handles.{NeverZero}
use net_port.Query.{NativePoll, PollEntry, Polled}
use net_port.Control.{
  receivelock, controllock, Place, third, inside, Control, is_outside, Move, goes_on, calls,
  destructs, move, moves, move_on, go_on, step_at, begin_at, destruct_at, breaks, first_control,
}
use net_port.Control.Kept.{
  is_inside, place_cases, step_at-SameLists, calls-SameLists, destructs-SameLists,
}
use net_port.Control.Lists.{in_order, moves-AreLinked}
use net_port.Program.{Program}
use net_port.Program.Rounds.{IsSafe, RoundsOn, receive_round-RoundsOn, control_round-RoundsOn}
use net_port.Schedule.{
  Turn, polls, ticks, turn_at, move_turns, schedule_turns, register, perform, perform_all,
}
use net_port.Schedule.Registered.{
  if_both, systems_of, sockets_of, sockets_of-entries, register-systems, register-IsSafe,
}

-- A result, whose systems are those of the control.
abbrev StandsAt : NativePoll → Control → Option Program → Type 0
StandsAt n s o = (q : Program) × (o ≡ some q) × (systems_of q.systems ≡ s.systems) × IsSafe n q

module _ (host : Host) (sources : ℕ → Source) (raw : Transfer) (sys : System) (n : NativePoll)
    (answer : Program → List PollEntry → ℕ → Polled) (never : NeverZero sys) where
  single-RoundsOn :
      (w : Turn) (p : Program)
      → RoundsOn n (perform host sources raw sys n answer w p) p
      → RoundsOn n (perform_all host sources raw sys n answer (w ∷ []) p) p
  unfolding perform_all
  single-RoundsOn w p (q, e, same, v) = (
    q,
    ap (λ (o : Option Program). o >>= perform_all host sources raw sys n answer []) e,
    same,
    v,
  )

  turn_at-RoundsOn :
      (pl : Place) (p : Program)
      → is_inside pl ≡ false
      → IsSafe n p
      → RoundsOn n (perform_all host sources raw sys n answer (turn_at pl) p) p
  unfolding perform_all turn_at perform
  turn_at-RoundsOn (inside r) p h v = absurd (ground arith)
  turn_at-RoundsOn (third receivelock true) p h v =
      single-RoundsOn polls p (receive_round-RoundsOn host sources raw sys n never (answer p) p v)
  turn_at-RoundsOn (third controllock true) p h v =
      single-RoundsOn ticks p (control_round-RoundsOn host sources raw sys n never p v)
  turn_at-RoundsOn _ p h v = (p, refl, refl, v)

  step-StandsAt :
      (t : ℕ) (s : Control) (p : Program)
      → systems_of p.systems ≡ s.systems
      → IsSafe n p
      → StandsAt n
          (step_at t (s.places t) s)
          (perform_all host sources raw sys n answer (turn_at (s.places t)) p)
  unfolding perform_all turn_at perform step_at
  step-StandsAt t s p same v = elim (place_cases (s.places t)) [
    | inl (r, e) ↦
        subst
          (λ (pl : Place).
            StandsAt n (step_at t pl s) (perform_all host sources raw sys n answer (turn_at pl) p))
          (sym e) (register n r p, refl, register-systems n t r s p same, register-IsSafe n r p v)
    | inr h ↦
        let (q, steps, kept, w) = turn_at-RoundsOn (s.places t) p h v in
        (q, steps, ap systems_of kept ∙ same ∙ sym (step_at-SameLists t (s.places t) s h).0, w)
  ]

  move-StandsAt :
      (m : Move) (s : Control) (p : Program)
      → systems_of p.systems ≡ s.systems
      → IsSafe n p
      → StandsAt n (move m s) (perform_all host sources raw sys n answer (move_turns m s) p)
  unfolding move move_on go_on move_turns perform_all begin_at destruct_at
  move-StandsAt (goes_on t) s p same v =
      if_both
        (λ (c : Control) (ws : List Turn).
          StandsAt n c (perform_all host sources raw sys n answer ws p))
        s.terminated s _ [] _ (λ _. (p, refl, same, v))
        (λ _.
          if_both
            (λ (c : Control) (ws : List Turn).
              StandsAt n c (perform_all host sources raw sys n answer ws p))
            (s.destroyed && not (is_outside (s.places t))) (breaks t s) (step_at t (s.places t) s)
            [] (turn_at (s.places t)) (λ _. (p, refl, same, v)) (λ _. step-StandsAt t s p same v))
  move-StandsAt (calls t r) s p same v = (p, refl, same ∙ sym (calls-SameLists t r s).0, v)
  move-StandsAt (destructs t) s p same v = (p, refl, same ∙ sym (destructs-SameLists t s).0, v)

  perform_all-append :
      (ws us : List Turn) (p : Program)
      → perform_all host sources raw sys n answer (ws ++ us) p ≡ (
          perform_all host sources raw sys n answer ws p
          >>= perform_all host sources raw sys n answer us)
  unfolding perform_all
  perform_all-append [] us p = refl
  perform_all-append (w ∷ ws) us p =
      elim (perform host sources raw sys n answer w p)
        as (λ o. (o >>= perform_all host sources raw sys n answer (ws ++ us)) ≡ (
          (o >>= perform_all host sources raw sys n answer ws)
          >>= perform_all host sources raw sys n answer us)) [
            | none ↦ refl
            | some q ↦ perform_all-append ws us q
          ]

  moves-StandsAt :
      (ms : List Move) (s : Control) (p : Program)
      → systems_of p.systems ≡ s.systems
      → IsSafe n p
      → StandsAt n (moves ms s) (perform_all host sources raw sys n answer (schedule_turns ms s) p)
  unfolding moves schedule_turns perform_all
  moves-StandsAt [] s p same v = (p, refl, same, v)
  moves-StandsAt (m ∷ ms) s p same v =
      let (q, steps, kept, w) = move-StandsAt m s p same v in
      let (r, ends, last, z) = moves-StandsAt ms (move m s) q kept w in
      (
        r,
        perform_all-append (move_turns m s) (schedule_turns ms (move m s)) p
            ∙ ap
                (λ (o : Option Program).
                  o >>= perform_all host sources raw sys n answer (schedule_turns ms (move m s)))
                steps
            ∙ ends,
        last,
        z,
      )

  -- With a system that never gives the handle 0, from a program with no system registered whose
  -- systems are valid: in every schedule of the loops, of calls of InitSystem and DeinitSystem and of
  -- the destructor, the rounds and the works of the calls, one after the other as the locks admit
  -- them and each done as a whole, run on the data of the program without a fault, whatever poll and
  -- the network answer. Afterwards the systems on the list of the program are those on the list of
  -- the threads, the sockets it polls are those that the threads poll, and the program is safe.
  pub moves-refine :
      (ms : List Move) (p : Program)
      → p.systems ≡ []
      → IsSafe n p
      → (q : Program) × (perform_all host sources raw sys n answer
            (schedule_turns ms first_control)
            p
          ≡ some q)
        × (systems_of q.systems ≡ (moves ms first_control).systems)
        × (sockets_of q.systemquery.qlist ≡ (moves ms first_control).systemquery)
        × IsSafe n q
  moves-refine ms p empty v =
      let (q, runs, same, w) = moves-StandsAt ms first_control p (ap systems_of empty) v in
      let (linked, _) = moves-AreLinked ms in
      (
        q,
        runs,
        same,
        ap sockets_of w.registry.listed
            ∙ sockets_of-entries n q.systems
            ∙ ap in_order same
            ∙ sym linked,
        w,
      )
