-- ===== src/Schedule/Registered.antt =====
-- What a call of InitSystem or DeinitSystem does to the data of a program is what it does to the
-- lists of the threads.
use net_port.Common.{
  ℕ, ◌≡◌, ◌∙◌, refl, sym, ap, subst, Bool, true, false, List, [], ◌∷◌, ◌++◌, ◌==◌, if◌then◌else◌,
}
use net_port.Query.{remove, NativePoll, QueryEntry, Query}
use net_port.Control.{at_place, refused, finished, Control, Registration, work, includes, without}
use net_port.Control.Lists.{in_order}
use net_port.Program.{Eco, Program, knows, init_system, deinit_loop, deinit_system}
use net_port.Program.Registry.{entry, entries, init_system-IsRegistry, deinit_system-IsRegistry}
use net_port.Program.Rounds.{IsSafe, init_system-AllValid}
use net_port.Schedule.{register}

-- Two tests of one value.
pub if_both {ℓ κ} :
    {A : Type ℓ} {B : Type κ} (P : A → B → Type 0) (b : Bool) (x y : A) (z w : B)
    → (b ≡ true → P x z)
    → (b ≡ false → P y w)
    → P (if b then x else y) (if b then z else w)
if_both P true x y z w f g = f refl
if_both P false x y z w f g = g refl

-- The systems of the callbacks, and the sockets of the entries
abbrev pub systems_of : List Eco → List ℕ
systems_of [] = []
systems_of (e ∷ es) = e.sys ∷ systems_of es

abbrev pub sockets_of : List QueryEntry → List ℕ
sockets_of [] = []
sockets_of (t ∷ ts) = t.sck ∷ sockets_of ts

pub includes-systems_of : (x : ℕ) (es : List Eco) → includes (systems_of es) x ≡ knows x es
unfolding knows
includes-systems_of x [] = refl
includes-systems_of x (e ∷ es) =
    ap (λ (b : Bool). if e.sys == x then true else b) (includes-systems_of x es)

pub deinit-systems_of :
    (x : ℕ) (es : List Eco) (q : Query)
    → systems_of (deinit_loop x es q).0 ≡ without (systems_of es) x
unfolding deinit_loop
deinit-systems_of x [] q = refl
deinit-systems_of x (e ∷ es) q =
    let rest = (deinit_loop x es (if e.sys == x then remove x q else q)).0 in
    let ih = deinit-systems_of x es (if e.sys == x then remove x q else q) in
    if_both (λ (ds : List Eco) (xs : List ℕ). systems_of ds ≡ xs) (e.sys == x) rest (e ∷ rest)
      (without (systems_of es) x) (e.sys ∷ without (systems_of es) x) (λ _. ih)
      (λ _. ap (λ (xs : List ℕ). e.sys ∷ xs) ih)

sockets_of-append :
    (ts us : List QueryEntry) → sockets_of (ts ++ us) ≡ sockets_of ts ++ sockets_of us
sockets_of-append [] us = refl
sockets_of-append (t ∷ ts) us = ap (λ (xs : List ℕ). t.sck ∷ xs) (sockets_of-append ts us)

pub sockets_of-entries :
    (n : NativePoll) (es : List Eco) → sockets_of (entries n es) ≡ in_order (systems_of es)
sockets_of-entries n [] = refl
sockets_of-entries n (e ∷ es) =
    sockets_of-append (entries n es) (entry n e ∷ [])
    ∙ ap (λ (xs : List ℕ). xs ++ (e.sys ∷ [])) (sockets_of-entries n es)

pub register-systems :
    (n : NativePoll) (t : ℕ) (r : Registration) (s : Control) (p : Program)
    → systems_of p.systems ≡ s.systems
    → systems_of (register n r p).systems ≡ (work t r s).systems
unfolding register init_system deinit_system work
register-systems n t (Registration.init_system x) s p e =
    let same : includes s.systems x ≡ knows x p.systems =
      ap (λ (xs : List ℕ). includes xs x) (sym e) ∙ includes-systems_of x p.systems in
    subst
      (λ (b : Bool).
        systems_of (init_system n x p).1.systems
        ≡ (if b
            then at_place t refused s
            else at_place t finished (record s {
              systems = x ∷ s.systems;
              systemquery = s.systemquery ++ (x ∷ []);
            })).systems)
      (sym same)
      (if_both (λ (a : ℕ × Program × Bool) (c : Control). systems_of a.1.systems ≡ c.systems)
        (knows x p.systems) _ _ _ _ (λ _. e) (λ _. ap (λ (xs : List ℕ). x ∷ xs) e))
register-systems n t (Registration.deinit_system x) s p e =
    deinit-systems_of x p.systems p.systemquery ∙ ap (λ (xs : List ℕ). without xs x) e

pub register-IsSafe :
    (n : NativePoll) (r : Registration) (p : Program) → IsSafe n p → IsSafe n (register n r p)
unfolding register deinit_system
register-IsSafe n (Registration.init_system x) p v = record {
  registry = init_system-IsRegistry n x p v.registry;
  valid = init_system-AllValid n x p v.valid;
}
register-IsSafe n (Registration.deinit_system x) p v = record {
  registry = deinit_system-IsRegistry n x p v.registry;
  valid = v.valid;
}
