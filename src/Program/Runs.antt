-- ===== src/Program/Runs.antt =====
-- Which sequences of acts run: the locks that are kept and the systems that are gone decide, and
-- nothing that poll or the network answers.
use net_port.Program.Book.{
  Book, book_of, allows, book_after, fits, IsSound, RunsOn, any_gone, lists-any, without-any,
  fails-allows,
}
use net_port.Control.{includes}
use net_port.Schedule.Registered.{systems_of, includes-systems_of}
use net_port.Common.{
  ℕ, ◌≡◌, ◌∙◌, ◌↔◌, refl, sym, ap, ap₂, ◌≢◌, subst, Bool, true, false, not, List, [], ◌∷◌, Option,
  none, some, ◌>>=◌, arith, if-cases, Bool-cases, inl, inr,
}
use net_port.Udp.{Host}
use net_port.System.{System}
use net_port.Arc4.{Source}
use net_port.Transfer.{Transfer}
use net_port.Udp.Handles.{NeverZero}
use net_port.Query.{NativePoll}
use net_port.Program.{
  Program, Act, initializes, destroys, binds_to, shuts, connects_to, receives, controls,
  init_system, do_act, knows,
}
use net_port.Program.Rounds.{IsSafe}
use net_port.Program.Acts.{listed_after, do_act-ActsOn}
use net_port.Program.Running.{Running, fails, after, act, act_all}

init_system-kept :
    (n : NativePoll) (x : ℕ) (p : Program)
    → (init_system n x p).2 ≡ includes (systems_of p.systems) x
unfolding init_system
init_system-kept n x p =
    rw (includes-systems_of x p.systems)
      (elim (Bool-cases (knows x p.systems)) [ inl h ↦ rw h refl | inr h ↦ rw h refl ])

same_book :
    (r : Running) (p : Program)
    → systems_of p.systems ≡ systems_of r.program.systems
    → book_of (record r { program = p }) ≡ book_of r
same_book r p e =
    ap (λ (xs : List ℕ). let b : Book = record { live = xs; kept = r.kept; gone = r.gone } in b) e

pub after-program :
    (n : NativePoll) (a : Act) (r : Running) (p : Program) → (after n a r p).program ≡ p
unfolding after
after-program n (initializes x af) r p = refl
after-program n (destroys x) r p = refl
after-program n (binds_to x a) r p = refl
after-program n (shuts x) r p = refl
after-program n (connects_to x a) r p = refl
after-program n (receives poll) r p = refl
after-program n controls r p = refl

none≢some : (q : Running) → none ≢ some q
none≢some q e = ground arith

after-book :
    (n : NativePoll) (a : Act) (r : Running) (p : Program)
    → systems_of p.systems ≡ listed_after a (systems_of r.program.systems)
    → book_of (after n a r p) ≡ book_after a (book_of r)
unfolding after book_after
after-book n (initializes x af) r p e =
    ap₂
      (λ (xs : List ℕ) (k : Bool).
        let b : Book = record { live = xs; kept = k; gone = r.gone } in b)
      e (init_system-kept n x r.program)
after-book n (destroys x) r p e =
    ap (λ (xs : List ℕ). let b : Book = record { live = xs; kept = r.kept; gone = x ∷ r.gone } in b)
      e
after-book n (binds_to x a) r p e = same_book r p e
after-book n (shuts x) r p e = same_book r p e
after-book n (connects_to x a) r p e = same_book r p e
after-book n (receives poll) r p e = same_book r p e
after-book n controls r p e = same_book r p e

-- No system that the book after an act lists is gone.
book_after-live :
    (a : Act) (b : Book)
    → allows a b ≡ true
    → any_gone b.gone b.live ≡ false
    → any_gone (book_after a b).gone (book_after a b).live ≡ false
unfolding book_after allows any_gone
book_after-live (initializes x af) b h v =
    if-cases (λ (xs : List ℕ). any_gone b.gone xs ≡ false) (includes b.live x) b.live (x ∷ b.live)
      (λ _. v) (λ _. ground (arith, h, v))
book_after-live (destroys x) b h v = without-any b.gone b.live x v
book_after-live (binds_to x a) b h v = v
book_after-live (shuts x) b h v = v
book_after-live (connects_to x a) b h v = v
book_after-live (receives poll) b h v = v
book_after-live controls b h v = v

after-IsSound :
    (n : NativePoll) (a : Act) (r : Running) (p : Program)
    → IsSound n r
    → allows a (book_of r) ≡ true
    → systems_of p.systems ≡ listed_after a (systems_of r.program.systems)
    → IsSafe n p
    → IsSound n (after n a r p)
after-IsSound n a r p v h e w =
    let booked = after-book n a r p e in
    let q = after n a r p in
    let same : q.program ≡ p = after-program n a r p in
    record {
      safe = subst (IsSafe n) (sym same) w;
      live =
          lists-any q.gone q.program.systems
          ∙ ap (λ (b : Book). any_gone b.gone b.live) booked
          ∙ book_after-live a (book_of r) h (sym (lists-any r.gone r.program.systems) ∙ v.live);
    }

module _ (host : Host) (sources : ℕ → Source) (raw : Transfer) (sys : System) (n : NativePoll) where
  act-fails : (a : Act) (r : Running) → fails a r ≡ true → act host sources raw sys n a r ≡ none
  unfolding act
  act-fails a r h = rw h refl

  act-returns :
      (a : Act) (r : Running) (p : Program)
      → fails a r ≡ false
      → do_act host sources raw sys n a r.program ≡ some p
      → act host sources raw sys n a r ≡ some (after n a r p)
  unfolding act
  act-returns a r p h e = rw (h, e) refl

  act-RunsOn :
      (never : NeverZero sys) (a : Act) (r : Running)
      → IsSound n r
      → allows a (book_of r) ≡ true
      → (q : Running) × (act host sources raw sys n a r ≡ some q)
        × IsSound n q
        × (book_of q ≡ book_after a (book_of r))
  act-RunsOn never a r v h =
      let (p, steps, left, w) = do_act-ActsOn host sources raw sys n never a r.program v.safe in
      (
        after n a r p,
        act-returns a r p (fails-allows n a r v ∙ ap not h) steps,
        after-IsSound n a r p v h left w,
        after-book n a r p left,
      )

  pub fits-RunsOn :
      (never : NeverZero sys) (acts : List Act) (r : Running)
      → IsSound n r
      → fits acts (book_of r) ≡ true
      → RunsOn n (act_all host sources raw sys n acts r)
  unfolding fits act_all
  fits-RunsOn never [] r v h = (r, refl, v)
  fits-RunsOn never (a ∷ later) r v h =
      let (q, steps, w, booked) = act-RunsOn never a r v (ground (arith, h)) in
      subst (RunsOn n)
        (sym (ap (λ (o : Option Running). o >>= act_all host sources raw sys n later) steps))
        (fits-RunsOn never later q w (ap (fits later) booked ∙ ground (arith, h)))

  fits_not-none :
      (never : NeverZero sys) (acts : List Act) (r : Running)
      → IsSound n r
      → fits acts (book_of r) ≡ false
      → act_all host sources raw sys n acts r ≡ none
  unfolding fits act_all
  fits_not-none never [] r v h = absurd (ground (arith, h))
  fits_not-none never (a ∷ later) r v h = elim (Bool-cases (allows a (book_of r))) [
    | inl k ↦
        let (q, steps, w, booked) = act-RunsOn never a r v k in
        ap (λ (o : Option Running). o >>= act_all host sources raw sys n later) steps
        ∙ fits_not-none never later q w (ap (fits later) booked ∙ ground (arith, h, k))
    | inr k ↦
        ap (λ (o : Option Running). o >>= act_all host sources raw sys n later)
          (act-fails a r (fails-allows n a r v ∙ ap not k))
  ]

  -- With a system that never gives the handle 0, from a program whose callbacks and polled sockets
  -- fit together, whose systems are valid and whose list has no system that is gone: a sequence of
  -- init, bind, close, connect and the destructor of any systems, and of rounds of the receive loop
  -- and the control loop, returns without a fault exactly if no act uses a system after its
  -- destructor and, once init was called for a registered system, no further init, destructor or
  -- round follows. That does not depend on what poll and the network answer. What such a sequence
  -- leaves fits together again: no poll calls a callback that is gone, and no loop reads behind a
  -- list.
  pub act_all-RunsOn :
      (never : NeverZero sys) (acts : List Act) (r : Running)
      → IsSound n r
      → (fits acts (book_of r) ≡ true) ↔ RunsOn n (act_all host sources raw sys n acts r)
  act_all-RunsOn never acts r v = (
    fits-RunsOn never acts r v,
    λ (q, runs, _). elim (Bool-cases (fits acts (book_of r))) [
      | inl h ↦ h
      | inr h ↦ absurd (none≢some q (sym (fits_not-none never acts r v h) ∙ runs))
    ],
  )
