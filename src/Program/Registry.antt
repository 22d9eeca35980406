-- ===== src/Program/Registry.antt =====
-- The list of callbacks and the sockets that are polled stay together.
use net_port.Common.{
  Bool, ℕ, ◌+◌, ◌<◌, ◌≡◌, ◌∙◌, refl, sym, ap, subst, false, List, [], ◌∷◌, ◌++◌, none, some, ◌==◌,
  if◌then◌else◌, All, arith, Bool-cases, inl, inr, if-cases,
}
use mathlib.Core.List.{append-nil}
use net_port.Query.{
  NativePoll, QueryEntry, Query, query_read, query_type_to_native, add, erase, remove,
}
use net_port.Query.Parallel.{IsParallel, change, change-IsParallel, adds, removes}
use net_port.Program.{Eco, Program, knows, find_node, init_system, deinit_loop, deinit_system}

-- The entry that InitSystem makes, and those of a list of systems: the newest last.
abbrev pub entry : NativePoll → Eco → QueryEntry
entry n e = record { sck = e.sys; type = query_type_to_native n query_read; eco = some e.node }

abbrev pub entries : NativePoll → List Eco → List QueryEntry
entries n [] = []
entries n (e ∷ es) = entries n es ++ entry n e ∷ []

-- No two callbacks have one address, and no two belong to one system.
abbrev pub AreDistinct : List Eco → Type 0
AreDistinct [] = Unit
AreDistinct (e ∷ es) = (find_node e.node es ≡ none) × (knows e.sys es ≡ false) × AreDistinct es

pub record IsRegistry (n : NativePoll) (p : Program) : Type 0 where
  pub listed : p.systemquery.qlist ≡ entries n p.systems
  pub parallel : IsParallel p.systemquery
  pub distinct : AreDistinct p.systems
  pub fresh : All (λ (e : Eco). e.node < p.next_node) p.systems

-- The list without the callbacks of a system.
pub others : ℕ → List Eco → List Eco
others x [] = []
others x (e ∷ es) = let rest = others x es in if e.sys == x then rest else e ∷ rest

erase-append :
    (x : ℕ) (ts us : List QueryEntry) → (erase x (ts ++ us)).0 ≡ (erase x ts).0 ++ (erase x us).0
unfolding erase
erase-append x [] us = refl
erase-append x (t ∷ ts) us = ground (arith, erase-append x ts us)

erase-erase : (x : ℕ) (ts : List QueryEntry) → (erase x (erase x ts).0).0 ≡ (erase x ts).0
unfolding erase
erase-erase x [] = refl
erase-erase x (t ∷ ts) = ground (arith, erase-erase x ts)

erase-entries :
    (n : NativePoll) (x : ℕ) (es : List Eco) → (erase x (entries n es)).0 ≡ entries n (others x es)
unfolding erase others
erase-entries n x [] = refl
erase-entries n x (e ∷ es) =
    erase-append x (entries n es) (entry n e ∷ []) ∙ elim (Bool-cases (e.sys == x)) [
      | inl h ↦ rw h (append-nil _ ∙ erase-entries n x es)
      | inr h ↦ rw h (ap (λ (ts : List QueryEntry). ts ++ entry n e ∷ []) (erase-entries n x es))
    ]

others-unknown : (x : ℕ) (es : List Eco) → knows x es ≡ false → others x es ≡ es
unfolding others knows
others-unknown x [] h = refl
others-unknown x (e ∷ es) h = ground (arith, others-unknown x es)

loop-systems : (x : ℕ) (es : List Eco) (q : Query) → (deinit_loop x es q).0 ≡ others x es
unfolding deinit_loop others
loop-systems x [] q = refl
loop-systems x (e ∷ es) q = ground (arith, loop-systems x es (if e.sys == x then remove x q else q))

loop-qlist :
    (x : ℕ) (es : List Eco) (q : Query)
    → (deinit_loop x es q).1.qlist ≡ (if knows x es then (erase x q.qlist).0 else q.qlist)
unfolding deinit_loop knows remove
loop-qlist x [] q = refl
loop-qlist x (e ∷ es) q =
    ground (arith, loop-qlist x es (if e.sys == x then remove x q else q), erase-erase x q.qlist)

loop-IsParallel :
    (n : NativePoll) (x : ℕ) (es : List Eco) (q : Query)
    → IsParallel q
    → IsParallel (deinit_loop x es q).1
unfolding deinit_loop change
loop-IsParallel n x [] q v = v
loop-IsParallel n x (e ∷ es) q v = loop-IsParallel n x es (if e.sys == x then remove x q else q) (
    if-cases IsParallel (e.sys == x) (remove x q) q (λ _. change-IsParallel n (removes x) q v)
      (λ _. v))

-- What is found among the callbacks is kept if it belongs to another system, and what is not found
-- does not come up.
others-find_node :
    (c x : ℕ) (es : List Eco) → find_node c es ≡ none → find_node c (others x es) ≡ none
unfolding others find_node
others-find_node c x [] h = refl
others-find_node c x (e ∷ es) h = ground (arith, others-find_node c x es)

others-knows : (y x : ℕ) (es : List Eco) → knows y es ≡ false → knows y (others x es) ≡ false
unfolding others knows
others-knows y x [] h = refl
others-knows y x (e ∷ es) h = ground (arith, others-knows y x es)

others-AreDistinct : (x : ℕ) (es : List Eco) → AreDistinct es → AreDistinct (others x es)
unfolding others
others-AreDistinct x [] v = tt
others-AreDistinct x (e ∷ es) (a, b, vs) =
    if-cases AreDistinct (e.sys == x) (others x es) (e ∷ others x es)
      (λ _. others-AreDistinct x es vs)
      (λ _. (others-find_node e.node x es a, others-knows e.sys x es b, others-AreDistinct x es vs))

others-All : (P : Eco → Type 0) (x : ℕ) (es : List Eco) → All P es → All P (others x es)
unfolding others
others-All P x [] v = tt
others-All P x (e ∷ es) (v, vs) =
    if-cases (All P) (e.sys == x) (others x es) (e ∷ others x es) (λ _. others-All P x es vs)
      (λ _. (v, others-All P x es vs))

below-fresh : (k : ℕ) (es : List Eco) → All (λ (e : Eco). e.node < k) es → find_node k es ≡ none
unfolding find_node
below-fresh k [] v = refl
below-fresh k (e ∷ es) (v, vs) = ground (arith, below-fresh k es vs)

below-next :
    (k : ℕ) (es : List Eco)
    → All (λ (e : Eco). e.node < k) es
    → All (λ (e : Eco). e.node < k + 1) es
below-next k [] v = tt
below-next k (e ∷ es) (v, vs) = (omega arith, below-next k es vs)

deinit_system-listed :
    (n : NativePoll) (x : ℕ) (es : List Eco) (q : Query)
    → q.qlist ≡ entries n es
    → (deinit_loop x es q).1.qlist ≡ entries n (others x es)
deinit_system-listed n x es q e =
    loop-qlist x es q
    ∙ if-cases (λ (ts : List QueryEntry). ts ≡ entries n (others x es)) (knows x es)
        (erase x q.qlist).0 q.qlist
        (λ _. ap (λ (ts : List QueryEntry). (erase x ts).0) e ∙ erase-entries n x es)
        (λ h. e ∙ ap (entries n) (sym (others-unknown x es h)))

pub deinit_system-IsRegistry :
    (n : NativePoll) (x : ℕ) (p : Program) → IsRegistry n p → IsRegistry n (deinit_system x p)
unfolding deinit_system
deinit_system-IsRegistry n x p v =
    let left = loop-systems x p.systems p.systemquery in
    record {
      listed =
          deinit_system-listed n x p.systems p.systemquery v.listed ∙ ap (entries n) (sym left);
      parallel = loop-IsParallel n x p.systems p.systemquery v.parallel;
      distinct = subst AreDistinct (sym left) (others-AreDistinct x p.systems v.distinct);
      fresh =
          subst (All (λ (e : Eco). e.node < p.next_node)) (sym left)
            (others-All (λ (e : Eco). e.node < p.next_node) x p.systems v.fresh);
    }

pub init_system-IsRegistry :
    (n : NativePoll) (x : ℕ) (p : Program) → IsRegistry n p → IsRegistry n (init_system n x p).1
unfolding init_system add
init_system-IsRegistry n x p v =
    if-cases (λ (r : ℕ × Program × Bool). IsRegistry n r.1) (knows x p.systems) _ _ (λ _. v)
      (λ h. record {
        listed =
            ap
              (λ (ts : List QueryEntry).
                ts ++ entry n (record { node = p.next_node; sys = x }) ∷ [])
              v.listed;
        parallel =
            unfold change in
            change-IsParallel n (adds x query_read (some p.next_node)) p.systemquery v.parallel;
        distinct = (below-fresh p.next_node p.systems v.fresh, h, v.distinct);
        fresh = (omega arith, below-next p.next_node p.systems v.fresh);
      })
