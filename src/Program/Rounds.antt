-- ===== src/Program/Rounds.antt =====
-- Rounds of the two loops, on systems that are registered.
use net_port.Common.{
  Bool, ℕ, ◌<◌, ◌≡◌, ◌∙◌, refl, sym, ap, subst, true, List, [], ◌∷◌, Option, none, some, ◌==◌,
  ◌>>=◌, if◌then◌else◌, All, All-append, arith, if-cases,
}
use net_port.Udp.{Host}
use net_port.System.{System}
use net_port.Arc4.{Arc4, Source}
use net_port.Transfer.{Transfer}
use net_port.Udp.Handles.{NeverZero}
use net_port.Query.{
  NativePoll, PollEntry, QueryEntry, Query, Polled, rebuild, update, fire, notify, i_poll,
  write_revents, native_to_query_type,
}
use net_port.Query.Parallel.{Aligned, IsParallel, rebuild-Aligned, write_revents-Aligned}
use net_port.Mei.{Mei, Outcome}
use net_port.Mei.Sessions.{Agrees-Extends}
use net_port.Mei.Validity.{IsValid, listed-Extends, Numbered-Extends, Peered-Extends}
use net_port.Mei.Events.{Event, ready, tick, happen-Works}
use net_port.Program.{
  Eco, Program, outcome_of, put, find_node, handle_of, on_system, deliver, receive_round,
  control_round, init_system, knows,
}
use net_port.Program.Registry.{entry, entries, AreDistinct, IsRegistry}

-- The callback of an entry is on the list, and belongs to the system whose socket stands there.
abbrev pub Resolves : List Eco → QueryEntry → Type 0
Resolves es t = (c : ℕ) × (t.eco ≡ some c) × (find_node c es ≡ some t.sck)

Resolves-more :
    (e : Eco) (es : List Eco) (ts : List QueryEntry)
    → find_node e.node es ≡ none
    → All (Resolves es) ts
    → All (Resolves (e ∷ es)) ts
unfolding find_node
Resolves-more e es [] new vs = tt
Resolves-more e es (t ∷ ts) new ((c, called, found), vs) =
    ((c, called, ground (arith, found, new)), Resolves-more e es ts new vs)

-- Every callback that a poll can reach is one of a registered system, at its own socket.
pub entries-Resolves :
    (n : NativePoll) (es : List Eco) → AreDistinct es → All (Resolves es) (entries n es)
unfolding find_node
entries-Resolves n [] v = tt
entries-Resolves n (e ∷ es) (new, other, vs) =
    All-append (Resolves (e ∷ es)) (entries n es) (entry n e ∷ [])
      (Resolves-more e es (entries n es) new (entries-Resolves n es vs))
      ((e.node, refl, ground arith), tt)

abbrev pub AllValid : Program → Type 0
AllValid p = (x : ℕ) → IsValid (p.meis x)

reseed-IsValid :
    (m : Mei) (rng : Arc4) (drawn : ℕ) → IsValid m → IsValid (record m { rng = rng; drawn = drawn })
reseed-IsValid m rng drawn v =
    let n : Mei = record m { rng = rng; drawn = drawn } in
    let x =
      Agrees-Extends m n (record { grown = λ j h. h; living = λ j h. refl; same = λ j h. refl }) in
    record {
      usable = v.usable;
      listed = listed-Extends m n x m.mis v.listed;
      by_number = Numbered-Extends m n x m.mim v.by_number;
      by_peer = Peered-Extends m n x m.pas v.by_peer;
    }

put-AllValid :
    (x : ℕ) (o : Outcome) (p : Program) → AllValid p → IsValid o.mei → AllValid (put x o p)
put-AllValid x o p v w y = if-cases IsValid (y == x) o.mei (p.meis y) (λ _. w) (λ _. v y)

-- The lists and the query are as they were.
abbrev pub SameRegistry : Program → Program → Type 0
SameRegistry q p =
    (q.systems ≡ p.systems) × (q.systemquery ≡ p.systemquery) × (q.next_node ≡ p.next_node)

-- A step returns, keeps the lists and leaves valid systems.
abbrev pub StepsTo : Option Program → Program → Type 0
StepsTo o p = (q : Program) × (o ≡ some q) × SameRegistry q p × AllValid q

-- The list of callbacks and the query fit together, and every system is valid.
pub record IsSafe (n : NativePoll) (p : Program) : Type 0 where
  pub registry : IsRegistry n p
  pub valid : AllValid p

-- A round returns, keeps the list of systems, and the program that it leaves is safe.
abbrev pub RoundsOn : NativePoll → Option Program → Program → Type 0
RoundsOn n o p = (q : Program) × (o ≡ some q) × (q.systems ≡ p.systems) × IsSafe n q

pub init_system-AllValid :
    (n : NativePoll) (x : ℕ) (p : Program) → AllValid p → AllValid (init_system n x p).1
unfolding init_system
init_system-AllValid n x p v =
    if-cases (λ (r : ℕ × Program × Bool). AllValid r.1) (knows x p.systems) _ _ (λ _. v) (λ _. v)

kept-IsRegistry :
    (n : NativePoll) (p q : Program)
    → IsRegistry n p
    → q.systems ≡ p.systems
    → q.next_node ≡ p.next_node
    → q.systemquery.qlist ≡ entries n p.systems
    → IsParallel q.systemquery
    → IsRegistry n q
kept-IsRegistry n p q v s k e parallel = record {
  listed = e ∙ ap (entries n) (sym s);
  parallel = parallel;
  distinct = subst AreDistinct (sym s) v.distinct;
  fresh =
      subst (λ (es : List Eco). All (λ (e : Eco). e.node < q.next_node) es) (sym s)
        (subst (λ (b : ℕ). All (λ (e : Eco). e.node < b) p.systems) (sym k) v.fresh);
}

module _ (host : Host) (sources : ℕ → Source) (raw : Transfer) (sys : System) (n : NativePoll)
    (never : NeverZero sys) where
  pub on_system-StepsTo :
      (x : ℕ) (e : Event) (p : Program)
      → AllValid p
      → StepsTo (on_system host sources raw sys n x e p) p
  unfolding on_system
  on_system-StepsTo x e p v =
      let (o, happens, w) =
        happen-Works host sources raw sys never e (outcome_of x p)
          (reseed-IsValid (p.meis x) p.rng p.drawn (v x)) in
      (
        put x o p,
        ap (λ (r : Option Outcome). r >>= (λ q. some (put x q p))) happens,
        (refl, refl, refl),
        put-AllValid x o p v w,
      )

  also : {o r : Option Program} (p : Program) → o ≡ r → StepsTo r p → StepsTo o p
  also p e (q, steps, same, v) = (q, e ∙ steps, same, v)

  deliver-StepsTo :
      (c x sck type : ℕ) (p : Program)
      → find_node c p.systems ≡ some x
      → AllValid p
      → StepsTo (deliver host sources raw sys n c sck type (some p)) p
  unfolding deliver
  deliver-StepsTo c x sck type p found v =
      also p
        (ap
          (λ (o : Option ℕ). elim o as (λ _. Option Program) [
            | none ↦ none
            | some y ↦ on_system host sources raw sys n y (ready type) p
          ])
          found)
        (on_system-StepsTo x (ready type) p v)

  notify-StepsTo :
      (a : PollEntry) (t : QueryEntry) (p : Program)
      → Resolves p.systems t
      → AllValid p
      → StepsTo (notify n (deliver host sources raw sys n) a t (some p)) p
  unfolding notify
  notify-StepsTo a t p (c, called, found) v =
      let type = native_to_query_type n a.revents in
      also p
        (ap
          (λ (o : Option ℕ). elim o as (λ _. Option Program) [
            | none ↦ some p
            | some y ↦
                if a.revents == 0
                then some p
                else deliver host sources raw sys n y t.sck type (some p)
          ])
          called)
        (if-cases (λ (o : Option Program). StepsTo o p) (a.revents == 0) (some p) _
          (λ _. (p, refl, (refl, refl, refl), v))
          (λ _. deliver-StepsTo c t.sck t.sck type p found v))

  fire-StepsTo :
      (ps : List PollEntry) (ts : List QueryEntry) (p : Program)
      → Aligned ps ts
      → All (Resolves p.systems) ts
      → AllValid p
      → (o : Option Program) × (fire n (deliver host sources raw sys n) ps ts (some p) ≡ some o)
        × StepsTo o p
  unfolding fire
  fire-StepsTo [] ts p a r v = (some p, refl, (p, refl, (refl, refl, refl), v))
  fire-StepsTo (a ∷ ps) [] p al r v = elim al [ ]
  fire-StepsTo (a ∷ ps) (t ∷ ts) p (_, al) (r, rs) v =
      let (q, steps, (s₁, s₂, s₃), w) = notify-StepsTo a t p r v in
      let (o, fires, (u, ends, (t₁, t₂, t₃), z)) =
        fire-StepsTo ps ts q al (subst (λ es. All (Resolves es) ts) (sym s₁) rs) w in
      (
        o,
        ap (fire n (deliver host sources raw sys n) ps ts) steps ∙ fires,
        (u, ends, (t₁ ∙ s₁, t₂ ∙ s₂, t₃ ∙ s₃), z),
      )

  pub same-RoundsOn : (o : Option Program) (p : Program) → IsSafe n p → StepsTo o p → RoundsOn n o p
  same-RoundsOn o p v (q, steps, (s₁, s₂, s₃), w) =
      let r = v.registry in
      (
        q,
        steps,
        s₁,
        record {
          registry =
              kept-IsRegistry n p q r s₁ s₃ (ap (λ (a : Query). a.qlist) s₂ ∙ r.listed)
                (subst IsParallel (sym s₂) r.parallel);
          valid = w;
        },
      )

  -- After the events of a poll the program gets the query back.
  polled-RoundsOn :
      (q : Query) (p : Program) (o : Option Program)
      → IsSafe n p
      → q.qlist ≡ entries n p.systems
      → IsParallel q
      → StepsTo o p
      → RoundsOn n (o >>= λ p₁. some (record p₁ { systemquery = q })) p
  polled-RoundsOn q p o v listed parallel (r, steps, (s₁, s₂, s₃), w) = (
    record r { systemquery = q },
    ap (λ (x : Option Program). x >>= λ p₁. some (record p₁ { systemquery = q })) steps,
    s₁,
    record {
      registry =
          kept-IsRegistry n p (record r { systemquery = q }) v.registry s₁ s₃ listed parallel;
      valid = w;
    },
  )

  pub receive_round-RoundsOn :
      (poll : List PollEntry → ℕ → Polled) (p : Program)
      → IsSafe n p
      → RoundsOn n (receive_round host sources raw sys n poll p) p
  unfolding receive_round i_poll update rebuild
  receive_round-RoundsOn poll p v =
      let q₁ = update (handle_of p) p.systemquery in
      let answer = poll q₁.plist 1 in
      let ps = write_revents answer.revents q₁.plist in
      let q₂ : Query = record q₁ { plist = ps } in
      let (aligned, _) =
        rebuild-Aligned (handle_of p) (record p.systemquery { inval = true })
          (λ e. absurd (ground (arith, e))) in
      let fits = write_revents-Aligned answer.revents q₁.plist q₁.qlist aligned in
      let listed = v.registry.listed in
      let resolved =
        subst (All (Resolves p.systems)) (sym listed)
          (entries-Resolves n p.systems v.registry.distinct) in
      let (o, fires, after) = fire-StepsTo ps q₁.qlist p fits resolved v.valid in
      let back : ℕ × Query × Option Program → Option Program =
        λ (_, q, s). s >>= λ p₁. some (record p₁ { systemquery = q }) in
      if-cases (λ (x : Option (ℕ × Query × Option Program)). RoundsOn n (x >>= back) p)
        (answer.result == 0) (some (answer.result, q₂, some p))
        (fire n (deliver host sources raw sys n) ps q₁.qlist (some p) >>= λ s.
          some (answer.result, q₂, s))
        (λ _.
          polled-RoundsOn q₂ p (some p) v listed (λ _. fits) (p, refl, (refl, refl, refl), v.valid))
        (λ _.
          subst
            (λ (x : Option (Option Program)).
              RoundsOn n ((x >>= λ s. some (answer.result, q₂, s)) >>= back) p)
            (sym fires) (polled-RoundsOn q₂ p o v listed (λ _. fits) after))

  -- A round of the control loop.
  control_round-StepsTo :
      (es : List Eco) (p : Program)
      → AllValid p
      → StepsTo (control_round host sources raw sys n es p) p
  unfolding control_round
  control_round-StepsTo [] p v = (p, refl, (refl, refl, refl), v)
  control_round-StepsTo (e ∷ es) p v =
      let (q, steps, (s₁, s₂, s₃), w) = on_system-StepsTo e.sys tick p v in
      let (r, ends, (t₁, t₂, t₃), z) = control_round-StepsTo es q w in
      (
        r,
        ap (λ (o : Option Program). o >>= control_round host sources raw sys n es) steps ∙ ends,
        (t₁ ∙ s₁, t₂ ∙ s₂, t₃ ∙ s₃),
        z,
      )

  pub control_round-RoundsOn :
      (p : Program) → IsSafe n p → RoundsOn n (control_round host sources raw sys n p.systems p) p
  control_round-RoundsOn p v = same-RoundsOn _ p v (control_round-StepsTo p.systems p v.valid)
