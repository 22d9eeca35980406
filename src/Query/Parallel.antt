-- ===== src/Query/Parallel.antt =====
-- The array that is polled and the list of sockets stay side by side, so the loop over the results
-- never reads behind the list.
use net_port.Common.{
  subst, sym, ℕ, ◌≡◌, ◌≢◌, refl, true, false, List, [], ◌∷◌, Option, some, ◌==◌, if-cases,
  Bool-cases, inl, inr, arith,
}
use net_port.System.{minus_one}
use net_port.Query.{
  NativePoll, QueryEntry, PollEntry, Query, Polled, refill, rebuild, add, erase, remove,
  write_revents, fire, notify, i_poll,
}

-- Each entry of the array asks for the events of the entry of the list beside it.
abbrev pub Aligned : List PollEntry → List QueryEntry → Type 0
Aligned [] [] = Unit
Aligned (p ∷ ps) (t ∷ ts) = (p.events ≡ t.type) × Aligned ps ts
Aligned _ _ = ⊥

abbrev pub IsParallel : Query → Type 0
IsParallel q = q.inval ≡ false → Aligned q.plist q.qlist

refill-Aligned :
    (handle : ℕ → ℕ) (ts : List QueryEntry) (ps : List PollEntry) → Aligned (refill handle ts ps) ts
unfolding refill
refill-Aligned handle [] ps = tt
refill-Aligned handle (t ∷ ts) [] = (refl, refill-Aligned handle ts [])
refill-Aligned handle (t ∷ ts) (p ∷ ps) = (refl, refill-Aligned handle ts ps)

pub write_revents-Aligned :
    (rs : List ℕ) (ps : List PollEntry) (ts : List QueryEntry)
    → Aligned ps ts
    → Aligned (write_revents rs ps) ts
unfolding write_revents
write_revents-Aligned rs [] ts v = v
write_revents-Aligned [] (p ∷ ps) ts v = v
write_revents-Aligned (r ∷ rs) (p ∷ ps) [] v = v
write_revents-Aligned (r ∷ rs) (p ∷ ps) (t ∷ ts) (v, vs) = (v, write_revents-Aligned rs ps ts vs)

pub rebuild-Aligned :
    (handle : ℕ → ℕ) (q : Query)
    → IsParallel q
    → let q₁ = rebuild handle q in Aligned q₁.plist q₁.qlist × (q₁.inval ≡ false)
unfolding rebuild
rebuild-Aligned handle q v =
    if-cases (λ (x : Query). Aligned x.plist x.qlist × (x.inval ≡ false)) q.inval
      (record q { plist = refill handle q.qlist q.plist; inval = false }) q
      (λ _. (refill-Aligned handle q.qlist q.plist, refl)) (λ e. (v e, e))

erase-none : (sck : ℕ) (ts : List QueryEntry) → (erase sck ts).1 ≡ false → (erase sck ts).0 ≡ ts
unfolding erase
erase-none sck [] h = refl
erase-none sck (t ∷ ts) h = ground (arith, erase-none sck ts)

-- What a program does to a query from any thread.
pub data Change : Type 0 where
  adds : (sck type : ℕ) (eco : Option ℕ) → Change
  removes : (sck : ℕ) → Change

unfoldable pub change : NativePoll → Change → Query → Query
change n (adds sck type eco) q = add n sck type eco q
change n (removes sck) q = remove sck q

pub changes : NativePoll → List Change → Query → Query
changes n [] q = q
changes n (c ∷ cs) q = changes n cs (change n c q)

pub change-IsParallel :
    (n : NativePoll) (c : Change) (q : Query) → IsParallel q → IsParallel (change n c q)
unfolding change add remove
change-IsParallel n (adds sck type eco) q v h = ground arith
change-IsParallel n (removes sck) q v h =
    subst (Aligned q.plist) (sym (erase-none sck q.qlist (ground arith))) (v (ground arith))

pub changes-IsParallel :
    (n : NativePoll) (cs : List Change) (q : Query) → IsParallel q → IsParallel (changes n cs q)
unfolding changes
changes-IsParallel n [] q v = v
changes-IsParallel n (c ∷ cs) q v =
    changes-IsParallel n cs (change n c q) (change-IsParallel n c q v)

module _ {ℓ} {S : Type ℓ} (n : NativePoll) (event : ℕ → ℕ → ℕ → S → S) where
  fire-total :
      (ps : List PollEntry) (ts : List QueryEntry) (s : S)
      → Aligned ps ts
      → (r : S) × (fire n event ps ts s ≡ some r)
  unfolding fire
  fire-total [] ts s v = (s, refl)
  fire-total (p ∷ ps) [] s v = elim v [ ]
  fire-total (p ∷ ps) (t ∷ ts) s (v, vs) = fire-total ps ts (notify n event p t s) vs

  -- From a query whose array fits its list, a poll never reads behind the list, whatever the system
  -- answers and whatever sockets other threads add and remove while it waits; and the array fits
  -- the list again, or is marked as not fitting. If the result is not 0 and the array is
  -- marked behind the poll, as a change during the wait leaves it, then the result is -1 and nothing
  -- was called.
  pub i_poll-IsParallel :
      (handle : ℕ → ℕ) (poll : List PollEntry → ℕ → Polled) (cs : List Change) (msec : ℕ)
      (q : Query) (s : S)
      → IsParallel q
      → (r : ℕ) × (q' : Query) × (s' : S) × (i_poll n event handle poll (changes n cs) msec q s
          ≡ some (r, q', s'))
        × IsParallel q'
        × (r ≢ 0 → q'.inval ≡ true → (r ≡ minus_one) × (s' ≡ s))
  unfolding i_poll
  i_poll-IsParallel handle poll cs msec q s v =
      let (aligned, fits) = rebuild-Aligned handle q v in
      let q₁ = rebuild handle q in
      let answer = poll q₁.plist msec in
      let written = record q₁ { plist = write_revents answer.revents q₁.plist } in
      let q₂ = changes n cs written in
      let w : IsParallel q₂ =
        changes-IsParallel n cs written
          (λ _. write_revents-Aligned answer.revents q₁.plist q₁.qlist aligned) in
      elim (Bool-cases (answer.result == 0)) [
        | inl e ↦ (answer.result, q₂, s, rw e refl, w, λ h. absurd (h (ground arith)))
        | inr e ↦ elim (Bool-cases q₂.inval) [
          | inl f ↦ (minus_one, q₂, s, rw (e, f) refl, w, λ _ _. (refl, refl))
          | inr f ↦
              let (s₁, fires) = fire-total q₂.plist q₂.qlist s (w f) in
              (answer.result, q₂, s₁, rw (e, f, fires) refl, w, λ _ g. absurd (ground arith))
        ]
      ]
