-- ===== src/Mei/Sessions.antt =====
-- A session of the system, and what the steps leave of the sessions that are there.
use net_port.Common.{subst, ℕ, ◌<◌, ◌≡◌, ◌∙◌, refl, sym, ap, true, ◌==◌, All, arith, if-cases}
use net_port.Transfer.{Transfer}
use net_port.Transfer.Retry.{IsKept}
use net_port.Transfer.Total.{Stays}
use net_port.Mei.{Mei, set_transfer}

-- A transfer that belongs to a system and holds a well-formed list.
pub record IsSound (t : Transfer) : Type 0 where
  pub linked : t.sys ≡ true
  pub kept : All IsKept t.rt

-- The socket `id` exists, and its transfer is one of this system.
pub record IsSession (m : Mei) (id : ℕ) : Type 0 where
  pub made : id < m.next
  pub alive : m.alive id ≡ true
  pub sound : IsSound (m.transfers id)

-- Every session of `m` is one of `n`, with the same number and the same peer.
pub record Extends (m n : Mei) : Type 0 where
  pub session : (j : ℕ) → IsSession m j → IsSession n j
  pub number : (j : ℕ) → IsSession m j → (n.transfers j).lsess ≡ (m.transfers j).lsess
  pub peer : (j : ℕ) → IsSession m j → (n.transfers j).remote ≡ (m.transfers j).remote

pub Extends-refl : (m : Mei) → Extends m m
Extends-refl m = record { session = λ j v. v; number = λ j v. refl; peer = λ j v. refl }

pub Extends-trans : (m n o : Mei) → Extends m n → Extends n o → Extends m o
Extends-trans m n o a b = record {
  session = λ j v. b.session j (a.session j v);
  number = λ j v. b.number j (a.session j v) ∙ a.number j v;
  peer = λ j v. b.peer j (a.session j v) ∙ a.peer j v;
}

pub eq_self : (n : ℕ) → (n == n) ≡ true
eq_self n = ground arith

same_id : (j id : ℕ) → j == id ≡ true → j ≡ id
same_id j id e = ground arith

-- A transfer replaced by what a handler made of it.
module _ (m : Mei) (id : ℕ) (u : Transfer) (stays : Stays (m.transfers id) u) where
  set_transfer-IsSound :
      (j : ℕ) → IsSound (m.transfers j) → IsSound ((set_transfer id u m).transfers j)
  set_transfer-IsSound j v =
      if-cases IsSound (j == id) u (m.transfers j)
        (λ e. record {
          linked =
              stays.system ∙ ap (λ (i : ℕ). (m.transfers i).sys) (sym (same_id j id e)) ∙ v.linked;
          kept = stays.kept;
        })
        (λ e. v)

  pub set_transfer-Extends : Extends m (set_transfer id u m)
  set_transfer-Extends = record {
    session =
        λ j v. record { made = v.made; alive = v.alive; sound = set_transfer-IsSound j v.sound };
    number = λ j v.
        if-cases (λ (t : Transfer). t.lsess ≡ (m.transfers j).lsess) (j == id) u (m.transfers j)
          (λ e. stays.number ∙ ap (λ (i : ℕ). (m.transfers i).lsess) (sym (same_id j id e)))
          (λ e. refl);
    peer = λ j v.
        if-cases (λ (t : Transfer). t.remote ≡ (m.transfers j).remote) (j == id) u (m.transfers j)
          (λ e. stays.peer ∙ ap (λ (i : ℕ). (m.transfers i).remote) (sym (same_id j id e)))
          (λ e. refl);
  }

-- A state that agrees on all sockets made so far.
pub record Agrees (m n : Mei) : Type 0 where
  pub grown : (j : ℕ) → j < m.next → j < n.next
  pub living : (j : ℕ) → j < m.next → n.alive j ≡ m.alive j
  pub same : (j : ℕ) → j < m.next → n.transfers j ≡ m.transfers j

pub Agrees-Extends : (m n : Mei) → Agrees m n → Extends m n
Agrees-Extends m n a = record {
  session = λ j v. record {
    made = a.grown j v.made;
    alive = a.living j v.made ∙ v.alive;
    sound = subst IsSound (sym (a.same j v.made)) v.sound;
  };
  number = λ j v. ap (λ (t : Transfer). t.lsess) (a.same j v.made);
  peer = λ j v. ap (λ (t : Transfer). t.remote) (a.same j v.made);
}
