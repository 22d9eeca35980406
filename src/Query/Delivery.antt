-- ===== src/Query/Delivery.antt =====
-- Which callbacks a poll calls, and what Remove leaves.
use net_port.Common.{
  Option-cases, Bool-cases, inl, inr, sym, ℕ, ◌≡◌, ◌≢◌, ◌∙◌, refl, ap, false, List, [], ◌∷◌, ◌++◌,
  none, some, ◌==◌, if◌then◌else◌, arith,
}
use mathlib.Core.List.{append_assoc, append-nil}
use net_port.Query.{
  NativePoll, QueryEntry, PollEntry, Query, Polled, rebuild, erase, write_revents, fire, notify,
  i_poll, native_to_query_type,
}
use net_port.Query.Parallel.{Aligned, write_revents-Aligned, IsParallel, rebuild-Aligned}

-- A call of Event: the callback, the socket and the conditions.
pub record Call : Type 0 where
  pub callback : ℕ
  pub sck : ℕ
  pub type : ℕ

abbrev pub logged : ℕ → ℕ → ℕ → List Call → List Call
logged c sck type log = log ++ record { callback = c; sck = sck; type = type } ∷ []

-- The calls that are due: one for each entry with a result and a callback, in the order of the list.
unfoldable pub due : NativePoll → List PollEntry → List QueryEntry → List Call
due n (p ∷ ps) (t ∷ ts) =
    let rest = due n ps ts in
    elim t.eco [
      | none ↦ rest
      | some c ↦
          if p.revents == 0
          then rest
          else record { callback = c; sck = t.sck; type = native_to_query_type n p.revents } ∷ rest
    ]
due n _ _ = []

notify-due :
    (n : NativePoll) (p : PollEntry) (t : QueryEntry) (ps : List PollEntry) (ts : List QueryEntry)
    (log : List Call)
    → notify n logged p t log ++ due n ps ts ≡ log ++ due n (p ∷ ps) (t ∷ ts)
unfolding notify due
notify-due n p t ps ts log = elim (Option-cases t.eco) [
  | inl e ↦ ground (arith, e)
  | inr (c, e) ↦
      let call : Call = record {
        callback = c;
        sck = t.sck;
        type = native_to_query_type n p.revents;
      } in
      ground (arith, e, append_assoc log (call ∷ []) (due n ps ts))
]

rebuild-qlist : (handle : ℕ → ℕ) (q : Query) → (rebuild handle q).qlist ≡ q.qlist
unfolding rebuild
rebuild-qlist handle q = ground arith

fire-due :
    (n : NativePoll) (ps : List PollEntry) (ts : List QueryEntry) (log : List Call)
    → Aligned ps ts
    → fire n logged ps ts log ≡ some (log ++ due n ps ts)
unfolding fire due
fire-due n [] [] log v = ap some (sym (append-nil log))
fire-due n [] (t ∷ ts) log v = elim v [ ]
fire-due n (p ∷ ps) [] log v = elim v [ ]
fire-due n (p ∷ ps) (t ∷ ts) log (v, vs) =
    fire-due n ps ts (notify n logged p t log) vs ∙ ap some (notify-due n p t ps ts log)

-- A poll that nothing disturbs, on a query whose array fits its list or is marked as not fitting,
-- calls exactly the callbacks that are due, in the order of the list; with the result 0 it calls
-- none.
pub i_poll-due :
    (n : NativePoll) (handle : ℕ → ℕ) (poll : List PollEntry → ℕ → Polled) (msec : ℕ) (q : Query)
    (log : List Call)
    → IsParallel q
    → let q₁ = rebuild handle q in
      let answer = poll q₁.plist msec in
      let ps = write_revents answer.revents q₁.plist in
      i_poll n logged handle poll (λ x. x) msec q log
      ≡ some (
        answer.result,
        record q₁ { plist = ps },
        (if answer.result == 0 then log else log ++ due n ps q.qlist),
      )
unfolding i_poll
i_poll-due n handle poll msec q log v =
    let (aligned, fits) = rebuild-Aligned handle q v in
    let q₁ = rebuild handle q in
    let answer = poll q₁.plist msec in
    let ps = write_revents answer.revents q₁.plist in
    let fires =
      fire-due n ps q₁.qlist log (write_revents-Aligned answer.revents q₁.plist q₁.qlist aligned) in
    elim (Bool-cases (answer.result == 0)) [
      | inl e ↦ rw e refl
      | inr e ↦ rw (e, fits, fires, rebuild-qlist handle q) refl
    ]

-- The entries of one socket, in order.
of_socket : ℕ → List QueryEntry → List QueryEntry
of_socket sck [] = []
of_socket sck (t ∷ ts) = let rest = of_socket sck ts in if t.sck == sck then t ∷ rest else rest

-- Remove takes every entry of its socket and leaves those of every other, in their order; and it
-- says that it took something exactly if there was one.
erase-of_socket :
    (sck other : ℕ) (ts : List QueryEntry)
    → (of_socket sck (erase sck ts).0 ≡ [])
      × (other ≢ sck → of_socket other (erase sck ts).0 ≡ of_socket other ts)
      × ((erase sck ts).1 ≡ false → of_socket sck ts ≡ [])
      × (of_socket sck ts ≡ [] → (erase sck ts).1 ≡ false)
unfolding erase of_socket
erase-of_socket sck other [] = (refl, λ _. refl, λ _. refl, λ _. refl)
erase-of_socket sck other (t ∷ ts) =
    let (none_left, others, empty, nothing) = erase-of_socket sck other ts in
    (
      ground arith,
      λ h. ground (arith, others h),
      λ h. ground (arith, empty),
      λ h. ground (arith, nothing),
    )
