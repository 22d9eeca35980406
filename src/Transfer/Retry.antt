-- ===== src/Transfer/Retry.antt =====
-- The retransmission list under the interval timer: what is kept stays well formed, is sent a
-- bounded number of times, and is gone after a bounded number of rounds.
use net_port.Common.{
  ℕ, zero, suc, ◌+◌, ◌-◌, ◌*◌, ◌^◌, ◌≤◌, ◌≡◌, ◌≢◌, refl, List, [], ◌∷◌, true, false, All, arith,
  length, u32,
}
use net_port.Buffer.{packet_size}
use net_port.Udp.{UdpSocket, Host, Wire}
use net_port.Transfer.{PacketRef, Transfer, Received, send_ref, interval, handle_interval, is_null}

-- A packet on the list: it has a buffer and a size that fits it, was sent at least once and at
-- most six times, and waits for at most 500 rounds.
pub record IsKept (r : PacketRef) : Type 0 where
  pub held : is_null r.ptr ≡ false
  pub full : 1 ≤ r.pksz
  pub fits : r.pksz ≤ packet_size
  pub sent : 1 ≤ r.attempt
  pub tries : r.attempt ≤ 6
  pub waits : 1 ≤ r.wait
  pub soon : r.wait ≤ 500

-- The rounds that a packet can still stay, and the attempts that are left.
abbrev pub life : PacketRef → ℕ
life r = (6 - r.attempt) * 500 + r.wait

abbrev pub LivesFor : ℕ → PacketRef → Type 0
LivesFor n r = IsKept r × (life r ≤ n)

pub attempts_left : List PacketRef → ℕ
attempts_left [] = 0
attempts_left (r ∷ rs) = 6 - r.attempt + attempts_left rs

module _ (host : Host) (udp : UdpSocket) (t : Transfer) (linked : t.sys ≡ true) where
  send_ref-LivesFor :
      (r : PacketRef) (wait : ℕ) (wire : Wire) (n : ℕ)
      → IsKept r
      → r.attempt ≤ 5
      → (5 - r.attempt) * 500 + 500 ≤ n
      → LivesFor n (send_ref host udp t (record r { wait = wait }) wire).ref
  unfolding send_ref is_null
  send_ref-LivesFor r wait wire n v few enough = ground arith

  pub interval-LivesFor :
      (n : ℕ) (rs : List PacketRef) (wire : Wire)
      → All (LivesFor (suc n)) rs
      → All (LivesFor n) (interval host udp t rs wire).rt
  unfolding interval
  interval-LivesFor n [] wire vs = tt
  interval-LivesFor n (r ∷ rs) wire (v, vs) =
      let wait = u32 (r.wait + 2 ^ 32 - 1) in
      let next = (send_ref host udp t (record r { wait = wait }) wire).wire in
      ground (
        arith,
        send_ref-LivesFor r wait wire n,
        interval-LivesFor n rs wire vs,
        interval-LivesFor n rs next vs,
      )

  -- With a socket that was opened every attempt is one call of the system.
  module _ (opened : udp.handle ≢ 0) where
    send_ref_attempt :
        (r : PacketRef) (wait : ℕ) (wire : Wire)
        → IsKept r
        → let s = send_ref host udp t (record r { wait = wait }) wire in
          (length s.wire ≡ length wire + 1) × (s.ref.attempt ≡ r.attempt + 1)
    unfolding send_ref is_null
    send_ref_attempt r wait wire v = ground arith

    interval_attempts :
        (rs : List PacketRef) (wire : Wire)
        → All IsKept rs
        → let round = interval host udp t rs wire in
          length round.wire + attempts_left round.rt ≡ length wire + attempts_left rs
    unfolding interval attempts_left
    interval_attempts [] wire vs = refl
    interval_attempts (r ∷ rs) wire (v, vs) =
        let wait = u32 (r.wait + 2 ^ 32 - 1) in
        let next = (send_ref host udp t (record r { wait = wait }) wire).wire in
        ground (
          arith,
          send_ref_attempt r wait wire v,
          interval_attempts rs wire vs,
          interval_attempts rs next vs,
        )

-- The timer runs `n` times while nothing else happens.
pub rounds : Host → UdpSocket → ℕ → Transfer → Wire → Received
rounds host udp zero t wire = record { transfer = t; wire = wire }
rounds host udp (suc n) t wire =
    let r = handle_interval host udp t wire in rounds host udp n r.transfer r.wire

pub All-LivesFor : (n : ℕ) → 3000 ≤ n → (rs : List PacketRef) → All IsKept rs → All (LivesFor n) rs
All-LivesFor n long [] vs = tt
All-LivesFor n long (r ∷ rs) (v, vs) = ((v, omega arith), All-LivesFor n long rs vs)

pub All-IsKept : (n : ℕ) (rs : List PacketRef) → All (LivesFor n) rs → All IsKept rs
All-IsKept n [] vs = tt
All-IsKept n (r ∷ rs) ((v, _), vs) = (v, All-IsKept n rs vs)

none_left : (rs : List PacketRef) → All (LivesFor 0) rs → rs ≡ []
none_left [] vs = refl
none_left (r ∷ rs) ((v, l), vs) = absurd (omega arith)

module _ (host : Host) (udp : UdpSocket) (opened : udp.handle ≢ 0) where
  rounds-LivesFor :
      (n : ℕ) (t : Transfer) (wire : Wire)
      → t.sys ≡ true
      → All (LivesFor n) t.rt
      → let r = rounds host udp n t wire in
        (r.transfer.rt ≡ []) × (length r.wire ≡ length wire + attempts_left t.rt)
  unfolding rounds handle_interval attempts_left
  rounds-LivesFor zero t wire linked vs = (none_left t.rt vs, rw (none_left t.rt vs) (omega arith))
  rounds-LivesFor (suc n) t wire linked vs =
      let round = interval host udp t t.rt wire in
      let rest =
        rounds-LivesFor n (record t { rt = round.rt }) round.wire linked
          (interval-LivesFor host udp t linked n t.rt wire vs) in
      (
        rest.0,
        omega (
          arith,
          rest.1,
          interval_attempts host udp t linked opened t.rt wire (All-IsKept (suc n) t.rt vs),
        ),
      )

  -- Without an answer a list of kept packets is empty after 3000 rounds of the timer, and by then
  -- the system was called exactly once for each attempt, out of six a packet, that was left.
  pub rounds-expire :
      (n : ℕ) (t : Transfer) (wire : Wire)
      → 3000 ≤ n
      → t.sys ≡ true
      → All IsKept t.rt
      → let r = rounds host udp n t wire in
        (r.transfer.rt ≡ []) × (length r.wire ≡ length wire + attempts_left t.rt)
  rounds-expire n t wire long linked vs =
      rounds-LivesFor n t wire linked (All-LivesFor n long t.rt vs)
