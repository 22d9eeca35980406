-- ===== src/Mei/Validity.antt =====
-- The invariant of a system: its socket can be used, and every entry of its tables is a session of
-- it, under its own number or its own peer.
use net_port.Mei.Sessions.{Agrees-Extends, IsSession, Extends}
use net_port.Common.{subst, ap, sym, ℕ, ◌≡◌, ◌≢◌, ◌∙◌, refl, List, All}
use net_port.Udp.{UdpSocket}
use net_port.Mei.{Mei, PeerKey}
use net_port.Mei.Lookup.{All-implies}

abbrev pub Numbered : Mei → ℕ × ℕ → Type 0
Numbered m (k, id) = IsSession m id × ((m.transfers id).lsess ≡ k)

abbrev pub Peered : Mei → PeerKey × ℕ → Type 0
Peered m ((a, _), id) = IsSession m id × ((m.transfers id).remote ≡ a)

pub record IsValid (m : Mei) : Type 0 where
  pub usable : m.udpsck.handle ≢ 0
  pub listed : All (IsSession m) m.mis
  pub by_number : All (Numbered m) m.mim
  pub by_peer : All (Peered m) m.pas

module _ (m n : Mei) (x : Extends m n) where
  pub listed-Extends : (ids : List ℕ) → All (IsSession m) ids → All (IsSession n) ids
  listed-Extends ids = All-implies (IsSession m) (IsSession n) ids x.session

  pub Numbered-Extends : (es : List (ℕ × ℕ)) → All (Numbered m) es → All (Numbered n) es
  Numbered-Extends es =
      All-implies (Numbered m) (Numbered n) es
        (λ (k, id) v. (x.session id v.0, x.number id v.0 ∙ v.1))

  pub Peered-Extends : (es : List (PeerKey × ℕ)) → All (Peered m) es → All (Peered n) es
  Peered-Extends es =
      All-implies (Peered m) (Peered n) es (λ (k, id) v. (x.session id v.0, x.peer id v.0 ∙ v.1))

-- A step that keeps the sessions, the socket and the tables keeps the invariant.
pub Extends-IsValid :
    (m n : Mei)
    → Extends m n
    → IsValid m
    → n.udpsck ≡ m.udpsck
    → n.mis ≡ m.mis
    → n.mim ≡ m.mim
    → n.pas ≡ m.pas
    → IsValid n
Extends-IsValid m n x v u e₁ e₂ e₃ = record {
  usable = λ z. v.usable (sym (ap (λ (s : UdpSocket). s.handle) u) ∙ z);
  listed = subst (All (IsSession n)) (sym e₁) (listed-Extends m n x m.mis v.listed);
  by_number = subst (All (Numbered n)) (sym e₂) (Numbered-Extends m n x m.mim v.by_number);
  by_peer = subst (All (Peered n)) (sym e₃) (Peered-Extends m n x m.pas v.by_peer);
}

-- So does another socket that can be used.
pub set_socket-IsValid :
    (m : Mei) (s : UdpSocket) (i : ℕ)
    → s.handle ≢ 0
    → IsValid m
    → IsValid (record m { udpsck = s; systemid = i })
set_socket-IsValid m s i z v =
    let n : Mei = record m { udpsck = s; systemid = i } in
    let x =
      Agrees-Extends m n (record { grown = λ j h. h; living = λ j h. refl; same = λ j h. refl }) in
    record {
      usable = z;
      listed = listed-Extends m n x m.mis v.listed;
      by_number = Numbered-Extends m n x m.mim v.by_number;
      by_peer = Peered-Extends m n x m.pas v.by_peer;
    }
