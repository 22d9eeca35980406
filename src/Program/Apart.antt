-- ===== src/Program/Apart.antt =====
-- A round of one of the loops touches no system that is not registered.
use net_port.Common.{
  ℕ, ◌≡◌, ◌∙◌, refl, sym, ap, true, false, List, [], ◌∷◌, Option, none, some, ◌==◌, ◌>>=◌,
  if◌then◌else◌, arith, if-cases, Bool-cases, inl, inr,
}
use net_port.Control.Locks.{true≢false}
use net_port.Udp.{Host}
use net_port.System.{System}
use net_port.Arc4.{Source}
use net_port.Transfer.{Transfer}
use net_port.Query.{
  NativePoll, PollEntry, QueryEntry, Query, Polled, update, rebuild, fire, notify, i_poll,
  write_revents, native_to_query_type,
}
use net_port.Mei.{Mei}
use net_port.Mei.Events.{Event, ready, tick, happen}
use net_port.Program.{
  Eco, Program, outcome_of, put, knows, find_node, handle_of, on_system, deliver, receive_round,
  control_round,
}

-- What may come of a program while the system `y` is not touched, if there is a result.
abbrev pub IsApart : ℕ → Program → Option Program → Type 0
IsApart y p none = Unit
IsApart y p (some q) = (knows y q.systems ≡ knows y p.systems) × (q.meis y ≡ p.meis y)

found-knows : (c x : ℕ) (es : List Eco) → find_node c es ≡ some x → knows x es ≡ true
unfolding find_node knows
found-knows c x [] h = absurd (ground arith)
found-knows c x (e ∷ es) h = ground (arith, found-knows c x es)

apart : (y x : ℕ) (es : List Eco) → knows y es ≡ false → knows x es ≡ true → y == x ≡ false
apart y x es missing listed = elim (Bool-cases (y == x)) [
  | inl e ↦
      let same : knows y es ≡ knows x es =
        ap (λ (z : ℕ). knows z es) (let s : y ≡ x = ground (arith, e) in s) in
      absurd (true≢false (sym listed ∙ sym same ∙ missing))
  | inr h ↦ h
]

abbrev IsPolled : ℕ → Program → Option (Option Program) → Type 0
IsPolled y p none = Unit
IsPolled y p (some o) = IsApart y p o

pub IsApart-trans :
    (y : ℕ) (p q : Program) (o : Option Program)
    → IsApart y p (some q)
    → IsApart y q o
    → IsApart y p o
IsApart-trans y p q none v w = tt
IsApart-trans y p q (some r) (k, m) (l, o) = (l ∙ k, o ∙ m)

pub bind-IsApart :
    (y : ℕ) (p : Program) (o : Option Program) (f : Program → Option Program)
    → IsApart y p o
    → ((q : Program) → IsApart y p (some q) → IsApart y p (f q))
    → IsApart y p (o >>= f)
bind-IsApart y p none f v each = tt
bind-IsApart y p (some q) f v each = each q v

-- After a poll the program gets the query back.
abbrev hand_back : ℕ × Query × Option Program → Option Program
hand_back (r, q, s) =
    s >>= (let f : Program → Option Program = λ p. some (record p { systemquery = q }) in f)

abbrev with_query : ℕ → Query → Option Program → Option (ℕ × Query × Option Program)
with_query r q s = some (r, q, s)

hand_back-IsApart :
    (y : ℕ) (p : Program) (r : ℕ) (q : Query) (polled : Option (Option Program))
    → IsPolled y p polled
    → IsApart y p ((polled >>= with_query r q) >>= hand_back)
hand_back-IsApart y p r q none v = tt
hand_back-IsApart y p r q (some o) v = bind-IsApart y p o _ v (λ u w. w)

module _ (host : Host) (sources : ℕ → Source) (raw : Transfer) (sys : System) (n : NativePoll)
    (y : ℕ) where
  pub on_system-IsApart :
      (x : ℕ) (e : Event) (p q : Program)
      → y == x ≡ false
      → IsApart y p (some q)
      → IsApart y p (on_system host sources raw sys n x e q)
  unfolding on_system
  on_system-IsApart x e p q h v =
      elim (happen host sources raw sys e (outcome_of x q))
        as (λ o. IsApart y p (o >>= λ r. some (put x r q))) [
          | none ↦ tt
          | some r ↦ (
            v.0,
            if-cases (λ (m : Mei). m ≡ p.meis y) (y == x) r.mei (q.meis y)
                (λ e. absurd (true≢false (sym e ∙ h))) (λ _. v.1),
          )
        ]

  deliver-IsApart :
      (c sck type : ℕ) (p : Program) (o : Option Program)
      → knows y p.systems ≡ false
      → IsApart y p o
      → IsApart y p (deliver host sources raw sys n c sck type o)
  unfolding deliver
  deliver-IsApart c sck type p o missing v =
      bind-IsApart y p o _ v (λ q w. at_node q w (find_node c q.systems) refl)
    where
      at_node :
          (q : Program)
          → IsApart y p (some q)
          → (found : Option ℕ) → find_node c q.systems ≡ found
          → IsApart y p (elim found [
            | none ↦ none
            | some x ↦ on_system host sources raw sys n x (ready type) q
          ])
      at_node q w none e = tt
      at_node q w (some x) e =
          on_system-IsApart x (ready type) p q
            (apart y x q.systems (w.0 ∙ missing) (found-knows c x q.systems e)) w

  notify-IsApart :
      (a : PollEntry) (t : QueryEntry) (p : Program) (o : Option Program)
      → knows y p.systems ≡ false
      → IsApart y p o
      → IsApart y p (notify n (deliver host sources raw sys n) a t o)
  unfolding notify
  notify-IsApart a t p o missing v =
      elim t.eco
        as (λ e. IsApart y p (elim e [
          | none ↦ o
          | some c ↦
              if a.revents == 0
              then o
              else deliver host sources raw sys n c t.sck (native_to_query_type n a.revents) o
        ])) [
          | none ↦ v
          | some c ↦
              if-cases (IsApart y p) (a.revents == 0) o _ (λ _. v)
                (λ _. deliver-IsApart c t.sck (native_to_query_type n a.revents) p o missing v)
        ]

  fire-IsApart :
      (ps : List PollEntry) (ts : List QueryEntry) (p : Program) (o : Option Program)
      → knows y p.systems ≡ false
      → IsApart y p o
      → IsPolled y p (fire n (deliver host sources raw sys n) ps ts o)
  unfolding fire
  fire-IsApart [] ts p o missing v = v
  fire-IsApart (a ∷ ps) [] p o missing v = tt
  fire-IsApart (a ∷ ps) (t ∷ ts) p o missing v =
      fire-IsApart ps ts p _ missing (notify-IsApart a t p o missing v)

  pub receive_round-IsApart :
      (poll : List PollEntry → ℕ → Polled) (p : Program)
      → knows y p.systems ≡ false
      → IsApart y p (receive_round host sources raw sys n poll p)
  unfolding receive_round i_poll update rebuild
  receive_round-IsApart poll p missing =
      let q₁ = update (handle_of p) p.systemquery in
      let answer = poll q₁.plist 1 in
      let ps = write_revents answer.revents q₁.plist in
      let q₂ : Query = record q₁ { plist = ps } in
      if-cases (λ (x : Option (ℕ × Query × Option Program)). IsApart y p (x >>= hand_back))
        (answer.result == 0) (some (answer.result, q₂, some p))
        (fire n (deliver host sources raw sys n) ps q₁.qlist (some p)
          >>= with_query answer.result q₂)
        (λ _. (refl, refl))
        (λ _.
          hand_back-IsApart y p answer.result q₂ _
            (fire-IsApart ps q₁.qlist p (some p) missing (refl, refl)))

  pub control_round-IsApart :
      (es : List Eco) (p q : Program)
      → knows y es ≡ false
      → IsApart y p (some q)
      → IsApart y p (control_round host sources raw sys n es q)
  unfolding control_round knows
  control_round-IsApart [] p q missing v = v
  control_round-IsApart (e ∷ es) p q missing v =
      bind-IsApart y p _ _ (on_system-IsApart e.sys tick p q (ground (arith, missing)) v)
        (λ r w. control_round-IsApart es p r (ground (arith, missing)) w)
