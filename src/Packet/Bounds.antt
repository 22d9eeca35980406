-- ===== src/Packet/Bounds.antt =====
-- No sequence of the calls that write a packet leaves its buffer, and the one call pattern that
-- does: `complete` after a read to the end.
use net_port.Common.{
  ℕ, ◌+◌, ◌^◌, ◌≤◌, ◌<◌, ◌≡◌, refl, List, [], ◌∷◌, Option, none, some, arith, length, Option-cases,
  inl, inr, ◌⊎◌, All, ◌>>=◌, dec_lt, ◌∙◌, ap, ◌-◌,
}
use native.Mathlib.Decide.{dec_le}
use net_port.Buffer.{Buffer, packet_size}
use net_port.Packet.{
  Packet, Header, room, header_size, complete, insert, place_header, insert_header, rewind, reset,
}
use net_port.Packet.Complete.{complete_lem, complete_nothing}
use net_port.Packet.Insert.{
  insert_lem, insert_full, place_header_lem, place_header_full, insert_header_closed,
  insert_header_open,
}

-- The positions lie in the buffer, and an open message leaves room for its trailer.
pub record IsBounded (p : Packet) : Type 0 where
  pub size : p.pksz ≤ packet_size
  pub position : p.mark ≤ packet_size
  pub message : p.ch ≤ packet_size
  pub closable : (p.mark ≤ room) ⊎ (p.mark ≤ p.ch)

-- The run faults nowhere and ends in bounds.
abbrev pub Runs : Option Packet → Type 0
Runs r = (q : Packet) × (r ≡ some q) × IsBounded q

Runs-bind :
    (r : Option Packet) (f : Packet → Option Packet)
    → Runs r
    → ((q : Packet) → IsBounded q → Runs (f q))
    → Runs (r >>= f)
Runs-bind none f (q, e, v) next = cc
Runs-bind (some p) f (q, e, v) next = next p (ground arith)

-- The buffers behind a pointer
abbrev pub own : Option Buffer → ℕ
own none = 0
own (some d) = 1

-- The run ends in bounds, with `n` buffers behind the pointer.
abbrev pub Holds : ℕ → Option Packet → Type 0
Holds n r = (q : Packet) × (r ≡ some q) × IsBounded q × (own q.ptr ≡ n)

Holds-Runs : (n : ℕ) (r : Option Packet) → Holds n r → Runs r
Holds-Runs n r (q, e, v, _) = (q, e, v)

Holds-bind :
    (n : ℕ) (r : Option Packet) (f : Packet → Option Packet)
    → Holds n r
    → ((q : Packet) → IsBounded q → Holds (own q.ptr) (f q))
    → Holds n (r >>= f)
Holds-bind n r f (q, e, v, h) next =
    let (s, goes, w, k) = next q v in (s, ap (λ (o : Option Packet). o >>= f) e ∙ goes, w, k ∙ h)

module _ (p : Packet) (v : IsBounded p) where
  pub insert-Holds : (bs : List ℕ) → length bs < 2 ^ 31 → Holds (own p.ptr) (insert bs p)
  insert-Holds bs small = elim (Option-cases p.ptr) [
    | inl e ↦ (p, unfold insert in ground arith, v, refl)
    | inr (d, e) ↦ elim (dec_le (p.mark + length bs) room) [
      | yes fits ↦ (_, insert_lem p d e bs fits, ground arith, rw e refl)
      | no full ↦ (p, insert_full p d e bs (omega arith) (omega arith), v, refl)
    ]
  ]

  place_header-Holds : (h : Header) → Holds (own p.ptr) (place_header h p)
  place_header-Holds h = elim (Option-cases p.ptr) [
    | inl e ↦ (p, unfold place_header in ground arith, v, refl)
    | inr (d, e) ↦ elim (dec_le (p.mark + header_size) room) [
      | yes fits ↦ (_, place_header_lem p d e h fits, ground arith, rw e refl)
      | no full ↦ (p, place_header_full p d e h v.position (omega arith), v, refl)
    ]
  ]

  pub complete-Holds : Holds (own p.ptr) (complete p)
  complete-Holds = elim (Option-cases p.ptr) [
    | inl e ↦ (p, unfold complete in ground arith, v, refl)
    | inr (d, e) ↦ elim (dec_lt p.ch p.mark) [
      | yes is_open ↦ (_, complete_lem p d e is_open (ground arith), ground arith, rw e refl)
      | no done ↦ (p, complete_nothing p d e (omega arith), v, refl)
    ]
  ]

  pub insert-Runs : (bs : List ℕ) → length bs < 2 ^ 31 → Runs (insert bs p)
  insert-Runs bs small = Holds-Runs (own p.ptr) (insert bs p) (insert-Holds bs small)

  pub complete-Runs : Runs (complete p)
  complete-Runs = Holds-Runs (own p.ptr) (complete p) complete-Holds

pub insert_header-Holds :
    (p : Packet) → IsBounded p → (h : Header) → Holds (own p.ptr) (insert_header h p)
insert_header-Holds p v h = elim (Option-cases p.ptr) [
  | inl e ↦ (p, unfold insert_header in ground arith, v, refl)
  | inr (d, e) ↦ elim (dec_lt p.ch p.mark) [
    | yes is_open ↦ rw (insert_header_open p d e h is_open) (
        Holds-bind (own p.ptr) (complete p) (place_header h) (complete-Holds p v)
          (λ q w. place_header-Holds q w h))
    | no done ↦ rw (insert_header_closed p d e h (omega arith)) (place_header-Holds p v h)
  ]
]

pub insert_header-Runs : (p : Packet) → IsBounded p → (h : Header) → Runs (insert_header h p)
insert_header-Runs p v h = Holds-Runs (own p.ptr) (insert_header h p) (insert_header-Holds p v h)

-- The calls that write a packet or restart it.
pub data Call : Type 0 where
  inserts : List ℕ → Call
  headers : Header → Call
  completes rewinds resets : Call

abbrev pub IsSmall : Call → Type 0
IsSmall (inserts bs) = length bs < 2 ^ 31
IsSmall _ = Unit

unfoldable pub call : Call → Packet → Option Packet
call (inserts bs) p = insert bs p
call (headers h) p = insert_header h p
call completes p = complete p
call rewinds p = some (rewind p)
call resets p = some (reset p)

pub run : List Call → Packet → Option Packet
run [] p = some p
run (c ∷ cs) p = call c p >>= run cs

-- reset makes a buffer if there is none, and no other call does.
abbrev pub allocations : Call → Packet → ℕ
allocations resets p = 1 - own p.ptr
allocations _ p = 0

more : {n : ℕ} {r : Option Packet} → Holds n r → Holds (n + 0) r
more (q, e, v, h) = (q, e, v, omega (arith, h))

own_filled : (o : Option Buffer) → 1 ≡ own o + (1 - own o)
own_filled none = refl
own_filled (some d) = refl

pub call-Holds :
    (c : Call)
    → IsSmall c
    → (p : Packet) → IsBounded p
    → Holds (own p.ptr + allocations c p) (call c p)
unfolding call rewind reset
call-Holds (inserts bs) small p v = more (insert-Holds p v bs small)
call-Holds (headers h) small p v = more (insert_header-Holds p v h)
call-Holds completes small p v = more (complete-Holds p v)
call-Holds rewinds small p v = (_, refl, ground arith, omega arith)
call-Holds resets small p v = (_, refl, ground arith, own_filled p.ptr)

call-Runs : (c : Call) → IsSmall c → (p : Packet) → IsBounded p → Runs (call c p)
call-Runs c small p v = Holds-Runs (own p.ptr + allocations c p) (call c p) (call-Holds c small p v)

-- From a packet in bounds every sequence of writes, headers, `complete`, `rewind` and `reset`
-- returns without touching a byte outside the buffer, and ends in bounds.
pub run-IsBounded : (cs : List Call) → All IsSmall cs → (p : Packet) → IsBounded p → Runs (run cs p)
unfolding run
run-IsBounded [] small p v = (p, refl, v)
run-IsBounded (c ∷ cs) small p v =
    Runs-bind (call c p) (run cs) (call-Runs c small.0 p v) (run-IsBounded cs small.1)
