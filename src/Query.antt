-- ===== src/Query.antt =====
-- `NetworkQuery` and `INetworkQuery` (include/net/network_common.hpp, src/network.cpp): the sockets
-- that are polled, the array that the system polls, and the callbacks. A socket and a callback are
-- numbers, which stand for their pointers. What poll does is a parameter.
pub mod Types
pub mod Parallel
pub mod Delivery
mod Tests
use net_port.Common.{
  ℕ, zero, suc, ◌+◌, ◌-◌, ◌^◌, ◌≡◌, Bool, true, false, not, List, [], ◌∷◌, ◌++◌, Option, none, some,
  ◌>>=◌, ◌==◌, if◌then◌else◌, bit_and, bit_or,
}
use net_port.System.{minus_one}

-- `QUERYTYPE`
abbrev pub query_read : ℕ
query_read = 1

abbrev pub query_write : ℕ
query_write = 2

abbrev pub query_oob : ℕ
query_oob = 4

abbrev pub query_pri : ℕ
query_pri = 8

abbrev pub query_error : ℕ
query_error = 16

abbrev pub query_hup : ℕ
query_hup = 32

abbrev pub query_inval : ℕ
query_inval = 64

-- The NATIVEPOLL macros, which name constants of the system's headers.
pub record NativePoll : Type 0 where
  pub rd : ℕ
  pub wr : ℕ
  pub pr : ℕ
  pub ob : ℕ
  pub iv : ℕ
  pub hu : ℕ
  pub er : ℕ

-- POLLRDNORM, POLLWRNORM, POLLPRI, POLLRDBAND, POLLNVAL, POLLHUP and POLLERR of Windows
abbrev pub windows_poll : NativePoll
windows_poll = record { rd = 0x100; wr = 0x10; pr = 0x400; ob = 0x200; iv = 4; hu = 2; er = 1 }

-- POLLIN, POLLOUT, POLLPRI twice, POLLNVAL, POLLHUP and POLLERR of Linux
abbrev pub linux_poll : NativePoll
linux_poll = record { rd = 1; wr = 4; pr = 2; ob = 2; iv = 0x20; hu = 0x10; er = 8 }

-- (type & mask) ? bit : 0
abbrev pub bit_when : ℕ → ℕ → ℕ → ℕ
bit_when type mask bit = if bit_and type mask == 0 then 0 else bit

unfoldable pub query_type_to_native : NativePoll → ℕ → ℕ
query_type_to_native n type =
    bit_or
      (bit_or (bit_or (bit_when type query_read n.rd) (bit_when type query_write n.wr))
        (bit_when type query_oob n.ob))
      (bit_when type query_pri n.pr)

unfoldable pub native_to_query_type : NativePoll → ℕ → ℕ
native_to_query_type n type =
    let first = bit_or (bit_when type n.rd query_read) (bit_when type n.wr query_write) in
    let more =
      bit_or (bit_or first (bit_when type n.ob query_oob)) (bit_when type n.pr query_pri) in
    bit_or (bit_or (bit_or more (bit_when type n.iv query_inval)) (bit_when type n.hu query_hup))
      (bit_when type n.er query_error)

-- `INetworkQueryType`
pub record QueryEntry : Type 0 where
  pub sck : ℕ
  pub type : ℕ
  pub eco : Option ℕ

-- WSAPOLLFD or pollfd
pub record PollEntry : Type 0 where
  pub fd : ℕ
  pub events : ℕ
  pub revents : ℕ

pub record Query : Type 0 where
  pub plist : List PollEntry
  pub qlist : List QueryEntry
  pub inval : Bool

-- NetworkQuery()
abbrev pub new_query : Query
new_query = record { plist = []; qlist = []; inval = true }

-- resize of plist to the length of qlist, and the loop over both
unfoldable pub refill : (ℕ → ℕ) → List QueryEntry → List PollEntry → List PollEntry
refill handle [] old = []
refill handle (t ∷ ts) [] =
    record { fd = handle t.sck; events = t.type; revents = 0 } ∷ refill handle ts []
refill handle (t ∷ ts) (p ∷ ps) =
    record p { fd = handle t.sck; events = t.type } ∷ refill handle ts ps

-- `handle` gives the handle of a socket.
unfoldable pub rebuild : (ℕ → ℕ) → Query → Query
rebuild handle q =
    if q.inval then record q { plist = refill handle q.qlist q.plist; inval = false } else q

unfoldable pub update : (ℕ → ℕ) → Query → Query
unfolding rebuild
update handle q = rebuild handle (record q { inval = true })

unfoldable pub add : NativePoll → ℕ → ℕ → Option ℕ → Query → Query
add n sck type eco q = record q {
  qlist = q.qlist ++ record { sck = sck; type = query_type_to_native n type; eco = eco } ∷ [];
  inval = true;
}

-- The erasing loop of Remove, and whether it erased something
unfoldable pub erase : ℕ → List QueryEntry → List QueryEntry × Bool
erase sck [] = ([], false)
erase sck (t ∷ ts) =
    let (rest, le) = erase sck ts in if t.sck == sck then (rest, true) else (t ∷ rest, le)

unfoldable pub remove : ℕ → Query → Query
unfolding erase
remove sck q =
    let (rest, le) = erase sck q.qlist in
    record q { qlist = rest; inval = if le then true else q.inval }

-- The answer of poll: its result and the revents of each entry.
pub record Polled : Type 0 where
  pub result : ℕ
  pub revents : List ℕ

-- poll writes revents; an entry that it does not reach keeps what it had.
unfoldable pub write_revents : List ℕ → List PollEntry → List PollEntry
write_revents rs [] = []
write_revents [] (p ∷ ps) = p ∷ ps
write_revents (r ∷ rs) (p ∷ ps) = record p { revents = r } ∷ write_revents rs ps

module _ {ℓ} {S : Type ℓ} (n : NativePoll) (event : ℕ → ℕ → ℕ → S → S) where
  -- Event of a callback that is set, for a socket with a result
  unfoldable pub notify : PollEntry → QueryEntry → S → S
  notify p t s = elim t.eco [
    | none ↦ s
    | some c ↦ if p.revents == 0 then s else event c t.sck (native_to_query_type n p.revents) s
  ]

  -- The loop over the results; `none` is a read behind the end of qlist.
  unfoldable pub fire : List PollEntry → List QueryEntry → S → Option S
  fire [] ts s = some s
  fire (p ∷ ps) [] s = none
  fire (p ∷ ps) (t ∷ ts) s = fire ps ts (notify p t s)

  -- IPoll. `poll` answers for the array, and `meanwhile` is what other threads do to the query
  -- during the call.
  unfoldable pub i_poll :
      (ℕ → ℕ)
      → (List PollEntry → ℕ → Polled)
      → (Query → Query)
      → ℕ
      → Query
      → S
      → Option (ℕ × Query × S)
  i_poll handle poll meanwhile msec q s =
      let q₁ = rebuild handle q in
      let answer = poll q₁.plist msec in
      let q₂ = meanwhile (record q₁ { plist = write_revents answer.revents q₁.plist }) in
      if answer.result == 0
      then some (answer.result, q₂, s)
      else if q₂.inval
      then some (minus_one, q₂, s)
      else (fire q₂.plist q₂.qlist s >>= λ s₁. some (answer.result, q₂, s₁))

  -- QueryWait and QueryBlock
  abbrev query_wait :
      (ℕ → ℕ)
      → (List PollEntry → ℕ → Polled)
      → (Query → Query)
      → ℕ
      → Query
      → S
      → Option (ℕ × Query × S)
  query_wait handle poll meanwhile msec q s = i_poll handle poll meanwhile msec q s

  abbrev query_block :
      (ℕ → ℕ) → (List PollEntry → ℕ → Polled) → (Query → Query) → Query → S → Option (ℕ × Query × S)
  query_block handle poll meanwhile q s = i_poll handle poll meanwhile minus_one q s
