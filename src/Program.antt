-- ===== src/Program.antt =====
-- The data of `IMEIControl` (src/MEISystem.cpp) over the systems of a program: the list of
-- callbacks, the sockets that are polled, and what the two loops do in a round. A number names a
-- MEISystem and its socket, another an IMEI_ECO, which stands for its address. The locks and the
-- order of the threads stand in Control; here a round or a call is done as a whole. Locks that a
-- refused InitSystem keeps, and systems that are gone, stand in Running.
pub mod Registry
pub mod Rounds
pub mod Running
pub mod Acts
pub mod Book
pub mod Runs
pub mod Apart
pub mod Isolation
pub mod Sample
mod Tests
use net_port.Common.{
  ℕ, ◌+◌, ◌≡◌, Bool, true, false, List, [], ◌∷◌, ◌++◌, Option, none, some, ◌>>=◌, ◌==◌,
  if◌then◌else◌,
}
use net_port.Address.{NetworkAddress}
use net_port.Udp.{Host, Wire}
use net_port.System.{System, Log, minus_one}
use net_port.Arc4.{Arc4, Source}
use net_port.Transfer.{Transfer}
use net_port.Query
use net_port.Query.{
  NativePoll, PollEntry, QueryEntry, Query, Polled, query_read, query_type_to_native, new_query,
  remove, update, i_poll,
}
use net_port.Mei.{Mei, Outcome}
use net_port.Mei.Events.{Event, inits, binds, closes, ready, tick, opens, happen}

-- `IMEI_ECO`
pub record Eco : Type 0 where
  pub node : ℕ
  pub sys : ℕ

-- `next_node` is the address of the next IMEI_ECO; the random numbers belong to the program.
pub record Program : Type 0 where
  pub systems : List Eco
  pub systemquery : Query
  pub next_node : ℕ
  pub meis : ℕ → Mei
  pub rng : Arc4
  pub drawn : ℕ
  pub log : Log
  pub wire : Wire

-- A system of the program, with the random numbers of the program, and what a step makes of it
abbrev pub outcome_of : ℕ → Program → Outcome
outcome_of x p = record {
  mei = record (p.meis x) { rng = p.rng; drawn = p.drawn };
  log = p.log;
  wire = p.wire;
}

abbrev pub put : ℕ → Outcome → Program → Program
put x o p = record p {
  meis = λ y. if y == x then o.mei else p.meis y;
  rng = o.mei.rng;
  drawn = o.mei.drawn;
  log = o.log;
  wire = o.wire;
}

unfoldable pub knows : ℕ → List Eco → Bool
knows x [] = false
knows x (e ∷ es) = let rest = knows x es in if e.sys == x then true else rest

-- The system of the callback at an address, if there is one
unfoldable pub find_node : ℕ → List Eco → Option ℕ
find_node c [] = none
find_node c (e ∷ es) = let rest = find_node c es in if e.node == c then some e.sys else rest

module _ (n : NativePoll) where
  -- InitSystem behind its two locks: the result, the lists, and whether it returns with both locks
  -- still held and the counter still raised
  unfoldable pub init_system : ℕ → Program → ℕ × Program × Bool
  unfolding knows
  init_system x p = if knows x p.systems then (minus_one, p, true) else (
    0,
    record p {
      systems = record { node = p.next_node; sys = x } ∷ p.systems;
      systemquery = Query.add n x query_read (some p.next_node) p.systemquery;
      next_node = p.next_node + 1;
    },
    false,
  )

-- The loop of DeinitSystem: the list that is left, and the query
unfoldable pub deinit_loop : ℕ → List Eco → Query → List Eco × Query
deinit_loop x [] q = ([], q)
deinit_loop x (e ∷ es) q =
    let (rest, q₁) = deinit_loop x es (if e.sys == x then remove x q else q) in
    (if e.sys == x then rest else e ∷ rest, q₁)

unfoldable pub deinit_system : ℕ → Program → Program
unfolding deinit_loop
deinit_system x p =
    let (rest, q) = deinit_loop x p.systems p.systemquery in
    record p { systems = rest; systemquery = q }

-- get_handle of the socket of a system
abbrev pub handle_of : Program → ℕ → ℕ
handle_of p x = (p.meis x).udpsck.handle

-- What a program does: calls of its systems, the end of a system, and rounds of the loops.
pub data Act : Type 0 where
  initializes : (x af : ℕ) → Act
  destroys : (x : ℕ) → Act
  binds_to : (x : ℕ) (a : NetworkAddress) → Act
  shuts : (x : ℕ) → Act
  connects_to : (x : ℕ) (a : NetworkAddress) → Act
  receives : (poll : List PollEntry → ℕ → Polled) → Act
  controls : Act

module _ (host : Host) (sources : ℕ → Source) (raw : Transfer) (sys : System) (n : NativePoll) where
  unfoldable pub on_system : ℕ → Event → Program → Option Program
  on_system x e p = happen host sources raw sys e (outcome_of x p) >>= λ o. some (put x o p)

  -- The callback at an address; `none` is a callback that is gone.
  unfoldable pub deliver : ℕ → ℕ → ℕ → Option Program → Option Program
  unfolding on_system find_node
  deliver c sck type s =
      s >>= λ p. elim (find_node c p.systems) [ none ↦ none | some x ↦ on_system x (ready type) p ]

  -- Update and QueryWait(1) of the receive loop; the lock keeps other threads from the query.
  unfoldable pub receive_round : (List PollEntry → ℕ → Polled) → Program → Option Program
  unfolding deliver
  receive_round poll p =
      let q = update (handle_of p) p.systemquery in
      i_poll n deliver (handle_of p) poll (λ q₁. q₁) 1 q (some p) >>= λ (r, q₂, s).
      s >>= λ p₁. some (record p₁ { systemquery = q₂ })

  -- ProcessControl of every system on the list
  unfoldable pub control_round : List Eco → Program → Option Program
  control_round [] p = some p
  control_round (e ∷ es) p = on_system e.sys tick p >>= control_round es

  -- An act of a system that exists, with the locks free. init of a system opens the socket and
  -- registers; what the registration answers depends on the list of the systems only, which the
  -- socket does not change.
  unfoldable pub do_act : Act → Program → Option Program
  unfolding init_system deinit_system receive_round control_round
  do_act (initializes x af) p =
      let (registered, _, _) = init_system n x p in
      on_system x (inits af registered) p >>= λ p₁. let (_, p₂, _) = init_system n x p₁ in some p₂
  do_act (destroys x) p = some (deinit_system x p)
  do_act (binds_to x a) p = on_system x (binds a) p
  do_act (shuts x) p = on_system x closes p
  do_act (connects_to x a) p = on_system x (opens a) p
  do_act (receives poll) p = receive_round poll p
  do_act controls p = control_round p.systems p

-- A program at its start, where nothing is registered
abbrev pub first_program : Arc4 → (ℕ → Mei) → Program
first_program rng meis = record {
  systems = [];
  systemquery = new_query;
  next_node = 0;
  meis = meis;
  rng = rng;
  drawn = 0;
  log = [];
  wire = [];
}
