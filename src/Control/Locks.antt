-- ===== src/Control/Locks.antt =====
-- A thread that stands where it believes it holds a lock is the holder.
use net_port.Common.{
  ◌∙◌, sym, ap, ℕ, ◌≡◌, ◌≢◌, refl, Bool, true, false, ◌&&◌, Option, none, some, ◌==◌, if◌then◌else◌,
  if-cases, arith,
}
use net_port.Control.{
  Lock, receivelock, controllock, Place, testing, ending, claimed, detaching, releasing, broken,
  is_owner, breaks, top, second, third, half, inside, refused, again, doomed_stopping,
  doomed_halting, doomed_claiming, finished, leaving, Control, same_lock, at_place, set_lock, lock,
  unlock,
}

-- Whether a thread at this place holds the lock.
abbrev pub holds : Place → Lock → Bool
holds (testing l access) m = access && same_lock m l
holds (ending l access) m = access && same_lock m l
holds (top l access) m = access && same_lock m l
holds (second l access) m = access && same_lock m l
holds (third l access) m = access && same_lock m l
holds (half _) controllock = true
holds (inside _) _ = true
holds refused _ = true
holds (again _) _ = true
holds doomed_stopping _ = true
holds doomed_halting _ = true
holds doomed_claiming _ = true
holds finished _ = true
holds leaving controllock = true
holds claimed receivelock = true
holds detaching _ = true
holds releasing controllock = true
holds _ _ = false

abbrev pub IsOwned : Control → Type 0
IsOwned s = (t : ℕ) (l : Lock) → holds (s.places t) l ≡ true → s.locks l ≡ some t

abbrev pub Keeps : Place → Place → Type 0
Keeps p q = (l : Lock) → holds q l ≡ true → holds p l ≡ true

same_thread : (t u : ℕ) → u == t ≡ true → t ≡ u
same_thread t u e = ground arith

same_lock_sound : (m l : Lock) → same_lock m l ≡ true → m ≡ l
same_lock_sound receivelock receivelock e = refl
same_lock_sound controllock controllock e = refl
same_lock_sound receivelock controllock e = ground arith
same_lock_sound controllock receivelock e = ground arith

pub at_place-IsOwned :
    (t : ℕ) (q : Place) (s : Control) → IsOwned s → Keeps (s.places t) q → IsOwned (at_place t q s)
at_place-IsOwned t q s v keeps u l =
    if-cases (λ (p : Place). holds p l ≡ true → s.locks l ≡ some u) (u == t) _ _
      (λ e h. v t l (keeps l h) ∙ ap some (same_thread t u e)) (λ e h. v u l h)

none≢some : (u : ℕ) → none ≢ some u
none≢some u e = ground arith

pub true≢false : true ≢ false
true≢false e = ground arith

other : (t u : ℕ) → u == t ≡ false → some t ≢ some u
other t u e same = ground arith

free-IsOwned :
    (t : ℕ) (l : Lock) (next : Place) (s : Control)
    → IsOwned s
    → s.locks l ≡ none
    → ((m : Lock) → holds next m ≡ true → same_lock m l ≡ false → holds (s.places t) m ≡ true)
    → IsOwned (at_place t next (set_lock l (some t) s))
free-IsOwned t l next s v free keeps u m =
    if-cases
      (λ (p : Place). holds p m ≡ true → (if same_lock m l then some t else s.locks m) ≡ some u)
      (u == t) _ _
      (λ e h.
        if-cases (λ (o : Option ℕ). o ≡ some u) (same_lock m l) _ _
          (λ _. ap some (same_thread t u e))
          (λ f. v t m (keeps m h f) ∙ ap some (same_thread t u e)))
      (λ e h.
        if-cases (λ (o : Option ℕ). o ≡ some u) (same_lock m l) _ _
          (λ f.
            absurd (none≢some u (sym free ∙ ap (s.locks) (sym (same_lock_sound m l f)) ∙ v u m h)))
          (λ _. v u m h))

pub breaks-IsOwned : (t : ℕ) (s : Control) → IsOwned s → IsOwned (breaks t s)
breaks-IsOwned t s v = at_place-IsOwned t broken s v (λ l h. ground arith)

owner_lem : (o : Option ℕ) (t : ℕ) → is_owner o t ≡ true → o ≡ some t
owner_lem none t e = ground arith
owner_lem (some u) t e = ground arith

pub lock-IsOwned :
    (t : ℕ) (l : Lock) (next : Place) (s : Control)
    → IsOwned s
    → ((m : Lock) → holds next m ≡ true → same_lock m l ≡ false → holds (s.places t) m ≡ true)
    → IsOwned (lock t l next s)
unfolding lock
lock-IsOwned t l next s v keeps = at_lock (s.locks l) refl
  where
    at_lock :
        (o : Option ℕ)
        → s.locks l ≡ o
        → IsOwned (elim o [ none ↦ at_place t next (set_lock l (some t) s) | some _ ↦ s ])
    at_lock none e = free-IsOwned t l next s v e keeps
    at_lock (some u) e = v

release-IsOwned :
    (t : ℕ) (l : Lock) (next : Place) (s : Control)
    → IsOwned s
    → is_owner (s.locks l) t ≡ true
    → holds next l ≡ false
    → Keeps (s.places t) next
    → IsOwned (at_place t next (set_lock l none s))
release-IsOwned t l next s v owner gone keeps u m =
    if-cases
      (λ (p : Place). holds p m ≡ true → (if same_lock m l then none else s.locks m) ≡ some u)
      (u == t) _ _
      (λ e h.
        if-cases (λ (o : Option ℕ). o ≡ some u) (same_lock m l) _ _
          (λ f. absurd (true≢false (sym h ∙ ap (holds next) (same_lock_sound m l f) ∙ gone)))
          (λ _. v t m (keeps m h) ∙ ap some (same_thread t u e)))
      (λ e h.
        if-cases (λ (o : Option ℕ). o ≡ some u) (same_lock m l) _ _
          (λ f. absurd (
            other t u e (
              sym (owner_lem (s.locks l) t owner)
              ∙ ap (s.locks) (sym (same_lock_sound m l f))
              ∙ v u m h)))
          (λ _. v u m h))

pub unlock-IsOwned :
    (t : ℕ) (l : Lock) (next : Place) (s : Control)
    → IsOwned s
    → holds next l ≡ false
    → Keeps (s.places t) next
    → IsOwned (unlock t l next s)
unfolding unlock
unlock-IsOwned t l next s v gone keeps =
    if-cases IsOwned (is_owner (s.locks l) t) _ _ (λ e. release-IsOwned t l next s v e gone keeps)
      (λ _. breaks-IsOwned t s v)

-- A lock that some thread holds keeps a thread where it is.
pub lock-held :
    (t u : ℕ) (l : Lock) (next : Place) (s : Control) → s.locks l ≡ some u → lock t l next s ≡ s
unfolding lock
lock-held t u l next s held =
    ap
      (λ (o : Option ℕ). elim o as (λ _. Control) [
        | none ↦ at_place t next (set_lock l (some t) s)
        | some _ ↦ s
      ])
      held
