-- ===== src/Program/Acts.antt =====
-- An act with the locks free: it returns, and what it leaves on the list of systems.
use net_port.Control.{includes, without}
use net_port.Schedule.Registered.{systems_of, includes-systems_of, deinit-systems_of}
use net_port.Common.{
  ℕ, ◌≡◌, ◌∙◌, refl, sym, ap, List, ◌∷◌, Option, some, ◌>>=◌, if◌then◌else◌, Bool-cases, inl, inr,
}
use net_port.Udp.{Host}
use net_port.System.{System}
use net_port.Arc4.{Source}
use net_port.Transfer.{Transfer}
use net_port.Udp.Handles.{NeverZero}
use net_port.Query.{NativePoll}
use net_port.Mei.Events.{Event, inits, binds, closes, opens}
use net_port.Program.{
  Program, Act, initializes, destroys, binds_to, shuts, connects_to, receives, controls,
  init_system, deinit_system, on_system, do_act, knows,
}
use net_port.Program.Registry.{init_system-IsRegistry, deinit_system-IsRegistry}
use net_port.Program.Rounds.{
  IsSafe, RoundsOn, init_system-AllValid, on_system-StepsTo, same-RoundsOn, receive_round-RoundsOn,
  control_round-RoundsOn,
}

-- The systems on the list after an act
abbrev pub listed_after : Act → List ℕ → List ℕ
listed_after (initializes x af) live = if includes live x then live else x ∷ live
listed_after (destroys x) live = without live x
listed_after _ live = live

-- An act returns and leaves a safe program with these systems.
abbrev pub ActsOn : NativePoll → Option Program → List ℕ → Type 0
ActsOn n o live = (q : Program) × (o ≡ some q) × (systems_of q.systems ≡ live) × IsSafe n q

init_system-systems_of :
    (n : NativePoll) (x : ℕ) (p : Program) (live : List ℕ)
    → systems_of p.systems ≡ live
    → systems_of (init_system n x p).1.systems ≡ (if includes live x then live else x ∷ live)
unfolding init_system
init_system-systems_of n x p live e =
    let same : includes live x ≡ knows x p.systems =
      ap (λ (xs : List ℕ). includes xs x) (sym e) ∙ includes-systems_of x p.systems in
    rw same (elim (Bool-cases (knows x p.systems)) [
      | inl h ↦ rw h e
      | inr h ↦ rw h (ap (λ (xs : List ℕ). x ∷ xs) e)
    ])

module _ (host : Host) (sources : ℕ → Source) (raw : Transfer) (sys : System) (n : NativePoll)
    (never : NeverZero sys) where
  round-ActsOn :
      (o : Option Program) (p : Program) → RoundsOn n o p → ActsOn n o (systems_of p.systems)
  round-ActsOn o p (q, steps, same, w) = (q, steps, ap systems_of same, w)

  system-RoundsOn :
      (x : ℕ) (e : Event) (p : Program)
      → IsSafe n p
      → RoundsOn n (on_system host sources raw sys n x e p) p
  system-RoundsOn x e p v =
      same-RoundsOn host sources raw sys n never _ p v
        (on_system-StepsTo host sources raw sys n never x e p v.valid)

  pub do_act-ActsOn :
      (a : Act) (p : Program)
      → IsSafe n p
      → ActsOn n (do_act host sources raw sys n a p) (listed_after a (systems_of p.systems))
  unfolding do_act deinit_system
  do_act-ActsOn (initializes x af) p v =
      let (registered, _, _) = init_system n x p in
      let (q, steps, same, w) = system-RoundsOn x (inits af registered) p v in
      let (_, p₂, _) = init_system n x q in
      (
        p₂,
        ap (λ (o : Option Program). o >>= λ p₁. let (_, r, _) = init_system n x p₁ in some r) steps,
        init_system-systems_of n x q (systems_of p.systems) (ap systems_of same),
        record {
          registry = init_system-IsRegistry n x q w.registry;
          valid = init_system-AllValid n x q w.valid;
        },
      )
  do_act-ActsOn (destroys x) p v = (
    deinit_system x p,
    refl,
    deinit-systems_of x p.systems p.systemquery,
    record { registry = deinit_system-IsRegistry n x p v.registry; valid = v.valid },
  )
  do_act-ActsOn (binds_to x a) p v = round-ActsOn _ p (system-RoundsOn x (binds a) p v)
  do_act-ActsOn (shuts x) p v = round-ActsOn _ p (system-RoundsOn x closes p v)
  do_act-ActsOn (connects_to x a) p v = round-ActsOn _ p (system-RoundsOn x (opens a) p v)
  do_act-ActsOn (receives poll) p v =
      round-ActsOn _ p (receive_round-RoundsOn host sources raw sys n never poll p v)
  do_act-ActsOn controls p v =
      round-ActsOn _ p (control_round-RoundsOn host sources raw sys n never p v)
