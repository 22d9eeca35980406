-- ===== src/Program/Isolation.antt =====
-- A system that is not registered is not touched.
use net_port.Common.{
  sym, none, ◌>>=◌, Option, ℕ, ◌≡◌, ◌∙◌, refl, ap, subst, Bool, true, false, List, [], ◌∷◌, some,
  ◌==◌, if◌then◌else◌, All, arith, if-cases, not,
}
use net_port.Udp.{Host}
use net_port.System.{System}
use net_port.Arc4.{Source}
use net_port.Transfer.{Transfer}
use net_port.Udp.Handles.{NeverZero}
use net_port.Query.{NativePoll, Query, remove}
use net_port.Mei.Events.{inits, binds, closes, opens}
use net_port.Program.{
  Eco, Program, knows, init_system, deinit_loop, deinit_system, Act, initializes, destroys,
  binds_to, shuts, connects_to, receives, controls, do_act,
}
use net_port.Program.Running.{Running, fails, after, act, act_all}
use net_port.Program.Book.{IsSound, book_of, fits}
use net_port.Program.Runs.{fits-RunsOn, after-program}
use net_port.Program.Apart.{
  IsApart, bind-IsApart, on_system-IsApart, receive_round-IsApart, control_round-IsApart,
}

-- An act of another system, or a round.
abbrev pub spares : ℕ → Act → Bool
spares y (initializes x _) = not (y == x)
spares y (destroys x) = not (y == x)
spares y (binds_to x _) = not (y == x)
spares y (shuts x) = not (y == x)
spares y (connects_to x _) = not (y == x)
spares y (receives _) = true
spares y controls = true

deinit-knows :
    (y x : ℕ) (es : List Eco) (q : Query)
    → y == x ≡ false
    → knows y (deinit_loop x es q).0 ≡ knows y es
unfolding deinit_loop knows
deinit-knows y x [] q h = refl
deinit-knows y x (e ∷ es) q h =
    let q₁ = if e.sys == x then remove x q else q in
    let ih : knows y (deinit_loop x es q₁).0 ≡ knows y es = deinit-knows y x es q₁ h in
    if-cases (λ (r : List Eco). knows y r ≡ (if e.sys == y then true else knows y es)) (e.sys == x)
      (deinit_loop x es q₁).0 (e ∷ (deinit_loop x es q₁).0) (λ s. ih ∙ ground (arith, s, h))
      (λ _. ap (λ (b : Bool). if e.sys == y then true else b) ih)

module _ (host : Host) (sources : ℕ → Source) (raw : Transfer) (sys : System) (n : NativePoll)
    (y : ℕ) where
  init_system-IsApart :
      (x : ℕ) (p q : Program)
      → y == x ≡ false
      → IsApart y p (some q)
      → IsApart y p (some (init_system n x q).1)
  unfolding init_system knows
  init_system-IsApart x p q h v =
      if-cases (λ (r : ℕ × Program × Bool). IsApart y p (some r.1)) (knows x q.systems) _ _ (λ _. v)
        (λ _. (ground (arith, h, v.0), v.1))

  do_act-IsApart :
      (a : Act) (p : Program)
      → spares y a ≡ true
      → knows y p.systems ≡ false
      → IsApart y p (do_act host sources raw sys n a p)
  unfolding do_act deinit_system
  do_act-IsApart (initializes x af) p h missing =
      bind-IsApart y p _ _
        (on_system-IsApart host sources raw sys n y x (inits af (init_system n x p).0) p p
          (ground (arith, h)) (refl, refl))
        (λ q w. init_system-IsApart x p q (ground (arith, h)) w)
  do_act-IsApart (destroys x) p h missing =
      (deinit-knows y x p.systems p.systemquery (ground (arith, h)), refl)
  do_act-IsApart (binds_to x a) p h missing =
      on_system-IsApart host sources raw sys n y x (binds a) p p (ground (arith, h)) (refl, refl)
  do_act-IsApart (shuts x) p h missing =
      on_system-IsApart host sources raw sys n y x closes p p (ground (arith, h)) (refl, refl)
  do_act-IsApart (connects_to x a) p h missing =
      on_system-IsApart host sources raw sys n y x (opens a) p p (ground (arith, h)) (refl, refl)
  do_act-IsApart (receives poll) p h missing =
      receive_round-IsApart host sources raw sys n y poll p missing
  do_act-IsApart controls p h missing =
      control_round-IsApart host sources raw sys n y p.systems p p missing (refl, refl)

  -- What may come of a running program while the system `y` is not touched
  abbrev IsLeft : Running → Option Running → Type 0
  IsLeft r none = Unit
  IsLeft r (some q) = IsApart y r.program (some q.program)

  act-IsLeft :
      (a : Act) (r : Running)
      → spares y a ≡ true
      → knows y r.program.systems ≡ false
      → IsLeft r (act host sources raw sys n a r)
  unfolding act
  act-IsLeft a r h missing =
      if-cases (IsLeft r) (fails a r) none _ (λ _. tt)
        (λ _.
          done (do_act host sources raw sys n a r.program) (do_act-IsApart a r.program h missing))
    where
      done :
          (o : Option Program) → IsApart y r.program o → IsLeft r (o >>= λ p. some (after n a r p))
      done none v = tt
      done (some p) v =
          subst (λ (u : Program). IsApart y r.program (some u)) (sym (after-program n a r p)) v

  over-IsLeft : (r q : Running) (o : Option Running) → IsLeft r (some q) → IsLeft q o → IsLeft r o
  over-IsLeft r q none v w = tt
  over-IsLeft r q (some u) (k, m) (l, o) = (l ∙ k, o ∙ m)

  bind-IsLeft :
      (r : Running) (o : Option Running) (f : Running → Option Running)
      → IsLeft r o
      → ((q : Running) → IsLeft r (some q) → IsLeft q (f q))
      → IsLeft r (o >>= f)
  bind-IsLeft r none f v each = tt
  bind-IsLeft r (some q) f v each = over-IsLeft r q (f q) v (each q v)

  act_all-IsLeft :
      (acts : List Act) (r : Running)
      → All (λ a. spares y a ≡ true) acts
      → knows y r.program.systems ≡ false
      → IsLeft r (act_all host sources raw sys n acts r)
  unfolding act_all
  act_all-IsLeft [] r hs missing = (refl, refl)
  act_all-IsLeft (a ∷ later) r (h, hs) missing =
      bind-IsLeft r (act host sources raw sys n a r) (act_all host sources raw sys n later)
        (act-IsLeft a r h missing) (λ q v. act_all-IsLeft later q hs (v.0 ∙ missing))

  -- With a system that never gives the handle 0, from a program whose callbacks and polled sockets
  -- fit together, whose systems are valid and whose list has no system that is gone: a system that is
  -- not registered, because it never was or because its destructor was called, stays exactly as it
  -- is, through every sequence of rounds of the loops and of calls of other systems in which no act
  -- uses a system after its destructor and, once init was called for a registered system, no further
  -- init, destructor or round follows. Such a sequence returns.
  pub act_all-isolates :
      (never : NeverZero sys) (acts : List Act) (r : Running)
      → IsSound n r
      → knows y r.program.systems ≡ false
      → All (λ a. spares y a ≡ true) acts
      → fits acts (book_of r) ≡ true
      → (q : Running) × (act_all host sources raw sys n acts r ≡ some q)
        × (q.program.meis y ≡ r.program.meis y)
  act_all-isolates never acts r sound missing hs fit =
      let (q, steps, _) = fits-RunsOn host sources raw sys n never acts r sound fit in
      let (_, same) = subst (IsLeft r) steps (act_all-IsLeft acts r hs missing) in (q, steps, same)
