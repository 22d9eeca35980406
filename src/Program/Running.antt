-- ===== src/Program/Running.antt =====
-- What a program does with its systems, one act after the other: calls of `MEISystem`
-- (src/MEISystem.cpp) and rounds of the loops, with the locks that a refused InitSystem keeps, and
-- with the systems whose destructor has returned.
use net_port.Control.{includes}
use net_port.Common.{ℕ, Bool, false, ◌||◌, List, [], ◌∷◌, Option, none, some, ◌>>=◌, if◌then◌else◌}
use net_port.Udp.{Host}
use net_port.System.{System}
use net_port.Arc4.{Source}
use net_port.Transfer.{Transfer}
use net_port.Query.{NativePoll, QueryEntry}
use net_port.Program.{
  Eco, Program, Act, initializes, destroys, binds_to, shuts, connects_to, receives, controls,
  init_system, do_act,
}

-- `kept` tells that a refused InitSystem returned with both locks and the counter raised, which no
-- thread undoes; `gone` are the systems that were destroyed.
pub record Running : Type 0 where
  pub program : Program
  pub kept : Bool
  pub gone : List ℕ

-- A callback on the list, or a socket that is polled, is one of a system that is gone.
unfoldable pub lists_gone : List ℕ → List Eco → Bool
lists_gone gone [] = false
lists_gone gone (e ∷ es) = includes gone e.sys || lists_gone gone es

unfoldable pub polls_gone : List ℕ → List QueryEntry → Bool
polls_gone gone [] = false
polls_gone gone (t ∷ ts) = includes gone t.sck || polls_gone gone ts

-- Whether the act uses a system that is gone, or waits for a lock that was kept: InitSystem,
-- DeinitSystem and both loops need the locks.
unfoldable pub fails : Act → Running → Bool
unfolding lists_gone polls_gone
fails (initializes x af) r = r.kept || includes r.gone x
fails (destroys x) r = r.kept || includes r.gone x
fails (binds_to x a) r = includes r.gone x
fails (shuts x) r = includes r.gone x
fails (connects_to x a) r = includes r.gone x
fails (receives poll) r =
    r.kept || (lists_gone r.gone r.program.systems || polls_gone r.gone r.program.systemquery.qlist)
fails controls r = r.kept || lists_gone r.gone r.program.systems

-- What an act that returns leaves of the locks and of the systems, and the program `p`
unfoldable pub after : NativePoll → Act → Running → Program → Running
unfolding init_system
after n (initializes x af) r p =
    let (_, _, kept) = init_system n x r.program in record r { program = p; kept = kept }
after n (destroys x) r p = record r { program = p; gone = x ∷ r.gone }
after n _ r p = record r { program = p }

module _ (host : Host) (sources : ℕ → Source) (raw : Transfer) (sys : System) (n : NativePoll) where
  -- `none` is a fault, a use of a system that is gone, or a call or round that waits for ever.
  unfoldable pub act : Act → Running → Option Running
  unfolding fails after do_act
  act a r =
      if fails a r
      then none
      else (do_act host sources raw sys n a r.program >>= λ p. some (after n a r p))

  unfoldable pub act_all : List Act → Running → Option Running
  act_all [] r = some r
  act_all (a ∷ later) r = act a r >>= act_all later

-- The program before its first act
abbrev pub begun : Program → Running
begun p = record { program = p; kept = false; gone = [] }
