-- ===== src/Mei.antt =====
-- `MEISystem` and `IMEISystem` (include/net/MEISystem.hpp, src/MEISystem.cpp): the sessions of one
-- system, the dispatch of datagrams to them, the timer and the opening of a session. A number names
-- a MEISocket and the IMEITransfer it holds. `none` is a fault of the program.
pub mod Lookup
pub mod Sessions
pub mod Validity
pub mod Steps
pub mod Runs
pub mod Events
pub mod Dispatch
pub mod Repeat
pub mod Opening
pub mod Connection
mod Tests
use net_port.Common.{
  ◌-◌, ◌^◌, ℕ, ◌+◌, ◌≡◌, Bool, true, false, ◌||◌, ◌&&◌, not, List, [], ◌∷◌, Option, none, some,
  ◌>>=◌, ◌==◌, ltb, if◌then◌else◌, get_or, bit_and,
}
use net_port.Query.{query_read}
use net_port.Buffer.{packet_size}
use net_port.Address.{NetworkAddress, undefined_address, lt}
use net_port.Packet.{Packet, Header, fetch_header, rewind}
use net_port.Udp.{UdpSocket, Host, Wire, Datagram}
use net_port.Udp.Calls
use net_port.System.{System, Log, is_negative}
use net_port.Arc4.{Arc4, Source, arc4random}
use net_port.Transfer
use net_port.Transfer.{
  Transfer, Received, handle_recv, handle_interval, received, is_control, session_request,
}

-- The key of `pas`: std::tuple<NetworkAddress, uint32_t>
abbrev pub PeerKey : Type 0
PeerKey = NetworkAddress × ℕ

-- std::less of the tuple: the components are compared one after the other by their own `<`.
unfoldable pub key_lt : PeerKey → PeerKey → Bool
key_lt (a, s) (b, r) = lt a b || (not (lt b a) && ltb s r)

-- Keys of a std::map are one key if neither is before the other.
unfoldable pub same_key : PeerKey → PeerKey → Bool
same_key k j = not (key_lt k j) && not (key_lt j k)

-- find and insert of a std::map: an insertion leaves an entry that the key has.
unfoldable pub find_mim : ℕ → List (ℕ × ℕ) → Option ℕ
find_mim k [] = none
find_mim k ((j, id) ∷ m) = if j == k then some id else find_mim k m

unfoldable pub insert_mim : ℕ → ℕ → List (ℕ × ℕ) → List (ℕ × ℕ)
insert_mim k id m = elim (find_mim k m) [ none ↦ (k, id) ∷ m | some _ ↦ m ]

-- The order of addresses is a strict weak order among IPv4 addresses of one type and protocol. With
-- other addresses among the keys the behaviour of std::map is undefined, and its find may miss a key;
-- the search by equivalence is what the code means there.
unfoldable pub find_pas : PeerKey → List (PeerKey × ℕ) → Option ℕ
find_pas k [] = none
find_pas k ((j, id) ∷ m) = if same_key k j then some id else find_pas k m

unfoldable pub insert_pas : PeerKey → ℕ → List (PeerKey × ℕ) → List (PeerKey × ℕ)
insert_pas k id m = elim (find_pas k m) [ none ↦ (k, id) ∷ m | some _ ↦ m ]

-- `alive` tells which sockets exist, `next` the number of the next one, and `drawn` how many random
-- words were drawn.
pub record Mei : Type 0 where
  pub udpsck : UdpSocket
  pub systemid : ℕ
  pub mim : List (ℕ × ℕ)
  pub pas : List (PeerKey × ℕ)
  pub mis : List ℕ
  pub transfers : ℕ → Transfer
  pub alive : ℕ → Bool
  pub next : ℕ
  pub rng : Arc4
  pub drawn : ℕ

-- MEISystem(), in a program with the random numbers `rng` and no MEISocket yet
abbrev pub new_mei : Arc4 → (ℕ → Transfer) → Mei
new_mei rng transfers = record {
  udpsck = Calls.new_udp;
  systemid = 0;
  mim = [];
  pas = [];
  mis = [];
  transfers = transfers;
  alive = λ _. false;
  next = 0;
  rng = rng;
  drawn = 0;
}

-- An int as an unsigned long
abbrev sign_extended : ℕ → ℕ
sign_extended r = if is_negative r then r + (2 ^ 64 - 2 ^ 32) else r

-- init, which does not look at what the socket says; `registered` is the result of InitSystem.
unfoldable pub init : System → ℕ → ℕ → Mei → Log → Bool × Mei × Log
init sys af registered m log =
    let (_, s, log₁) = Calls.init sys af m.udpsck log in
    (true, record m { udpsck = s; systemid = sign_extended registered }, log₁)

unfoldable pub bind : System → NetworkAddress → Mei → Log → Bool × Mei × Log
bind sys a m log =
    let (b, s, log₁) = Calls.bind sys a m.udpsck log in (b, record m { udpsck = s }, log₁)

unfoldable pub close : System → Mei → Log → Mei × Log
close sys m log = let (s, log₁) = Calls.close sys m.udpsck log in (record m { udpsck = s }, log₁)

abbrev pub set_transfer : ℕ → Transfer → Mei → Mei
set_transfer id t m = record m { transfers = λ j. if j == id then t else m.transfers j }

-- A step of the system, the calls that receive and the calls that send.
pub record Outcome : Type 0 where
  pub mei : Mei
  pub log : Log
  pub wire : Wire

-- The packet that recvfrom filled with `r` bytes.
abbrev pub arrival : ℕ → List ℕ → Packet
arrival r given = received (record { bytes = λ j. get_or given j 0; size = r })

-- `sources` holds the entropy at each draw, `raw` what a new transfer finds in its memory.
module _ (host : Host) (sources : ℕ → Source) (raw : Transfer) where
  unfoldable pub draw : Mei → ℕ × Mei
  draw m =
      let (v, rng) = arc4random (sources m.drawn) m.rng in
      (v, record m { rng = rng; drawn = m.drawn + 1 })

  -- new MEISocket(): the transfer draws its two counters.
  unfoldable pub new_socket : Mei → ℕ × Mei
  unfolding draw
  new_socket m =
      let (lseq, m₁) = draw m in
      let (lseqh, m₂) = draw m₁ in
      let t : Transfer = record raw {
        sys = false;
        remote = undefined_address;
        rt = [];
        lseq = lseq;
        lseqh = lseqh;
      } in
      (
        m.next,
        set_transfer m.next t
            (record m₂ { alive = λ j. if j == m.next then true else m.alive j; next = m.next + 1 }),
      )

  -- The session of a request that no entry of `pas` answers.
  unfoldable pub new_session : NetworkAddress → ℕ → Mei → ℕ × Mei
  unfolding new_socket draw
  new_session a session m =
      let (id, m₁) = new_socket m in
      let (lsess, m₂) = draw m₁ in
      let t : Transfer = record (m₂.transfers id) {
        sys = true;
        remote = a;
        lsess = lsess;
        rsess = session;
      } in
      let m₃ = set_transfer id t m₂ in
      (
        id,
        record m₃ {
          mis = id ∷ m₃.mis;
          mim = insert_mim lsess id m₃.mim;
          pas = insert_pas (a, session) id m₃.pas;
        },
      )

  -- HandleRecv of the transfer of a socket
  unfoldable pub dispatch : ℕ → Packet → Mei → Log → Wire → Option Outcome
  dispatch id cr m log wire =
      if m.alive id
      then (do
        r ← handle_recv host m.udpsck (m.transfers id) cr wire
        some (record { mei = set_transfer id r.transfer m; log = log; wire = r.wire }))
      else none

  unfoldable pub receive_request :
      NetworkAddress → Header → Packet → Mei → Log → Wire → Option Outcome
  receive_request a ph cr m log wire = elim (find_pas (a, ph.session) m.pas) [
    | some id ↦ dispatch id cr m log wire
    | none ↦ let (id, m₁) = new_session a ph.session m in dispatch id cr m₁ log wire
  ]

  unfoldable pub receive_other : Header → Packet → Mei → Log → Wire → Option Outcome
  receive_other ph cr m log wire = elim (find_mim ph.session m.mim) [
    | some id ↦ dispatch id cr m log wire
    | none ↦ some (record { mei = m; log = log; wire = wire })
  ]

  -- The part of ProcessReceive behind the first fetch
  unfoldable pub route : NetworkAddress → Mei → Log → Wire → Header × Packet → Option Outcome
  route a m log wire (ph, read) =
      if ph.code == session_request && is_control ph.flags
      then receive_request a ph (rewind read) m log wire
      else receive_other ph (rewind read) m log wire

  unfoldable pub process_packet : NetworkAddress → Packet → Mei → Log → Wire → Option Outcome
  process_packet a cr m log wire = fetch_header cr >>= route a m log wire

  unfoldable pub process_receive : System → Mei → Log → Wire → Option Outcome
  process_receive sys m log wire =
      let (r, a, bytes, log₁) = Calls.recv_from sys m.udpsck undefined_address packet_size log in
      if r == 0 || is_negative r
      then some (record { mei = m; log = log₁; wire = wire })
      else process_packet a (arrival r bytes) m log₁ wire

  -- IMEI_ECO::Event
  unfoldable pub event : System → ℕ → Mei → Log → Wire → Option Outcome
  event sys type m log wire =
      if bit_and type query_read == 0
      then some (record { mei = m; log = log; wire = wire })
      else process_receive sys m log wire

  -- ProcessControl: HandleInterval of every transfer on the list that still exists
  unfoldable pub control_step : ℕ → Mei → Wire → Mei × Wire
  control_step id m wire =
      let r = handle_interval host m.udpsck (m.transfers id) wire in
      if m.alive id then (set_transfer id r.transfer m, r.wire) else (m, wire)

  unfoldable pub control_loop : List ℕ → Mei → Wire → Mei × Wire
  control_loop [] m wire = (m, wire)
  control_loop (id ∷ ids) m wire =
      let (m₁, wire₁) = control_step id m wire in control_loop ids m₁ wire₁

  unfoldable pub process_control : Mei → Wire → Mei × Wire
  process_control m wire = control_loop m.mis m wire

  -- connect on the socket `id`
  unfoldable pub connect : NetworkAddress → ℕ → Mei → Log → Wire → Option Outcome
  unfolding draw
  connect a id m log wire = do
    let (lsid, m₁) = draw m
    let t : Transfer = record (m₁.transfers id) { sys = true; remote = a; lsess = lsid }
    r ← Transfer.connect host m₁.udpsck t wire
    some (record {
      mei = record (set_transfer id r.transfer m₁) {
        mis = id ∷ m₁.mis;
        mim = insert_mim lsid id m₁.mim;
      };
      log = log;
      wire = r.wire;
    })

  -- An application makes a socket and connects it.
  unfoldable pub connect_new : NetworkAddress → Mei → Log → Wire → Option Outcome
  unfolding new_socket
  connect_new a m log wire = let (id, m₁) = new_socket m in connect a id m₁ log wire
