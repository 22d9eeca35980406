-- ===== src/Program/Sample.antt =====
-- A program at its start, on a system with fixed answers.
use net_port.Common.{ℕ, refl, arith, pos, true, false, List, [], ◌∷◌, none}
use net_port.Program.{Program, first_program}
use net_port.Buffer.{zeros}
use net_port.Address.{undefined_address}
use net_port.Udp.{Host}
use net_port.System.{System}
use net_port.Arc4.{Arc4, Source}
use net_port.Transfer.{Transfer}
use net_port.Query.{Polled, PollEntry, linux_poll}
use net_port.Mei.{new_mei}
use net_port.Program.Rounds.{IsSafe}

abbrev pub raw : Transfer
raw = record {
  sys = false;
  remote = undefined_address;
  lsess = 0;
  rsess = 0;
  rt = [];
  lseq = 7;
  lseqh = 0;
  rseq = 0;
  rseqh = 0;
}

abbrev pub rng : Arc4
rng = record {
  rs = record { i = 0; j = 0; s = zeros };
  initialized = false;
  count = pos 0;
  seeded_ok = false;
}

abbrev pub network : Host
network _ _ _ _ = true

abbrev pub sources : ℕ → Source
sources _ _ = none

-- Every call answers 12, and every byte that arrives is 240.
abbrev pub host : System
host = record {
  answer = λ _ _. 12;
  would_block = λ _. false;
  readable = λ _ _. true;
  writable = λ _ _. false;
  failed = λ _ _. false;
  peer = λ _. undefined_address;
  arrived = λ _. 240 ∷ 240 ∷ 240 ∷ 240 ∷ 240 ∷ 240 ∷ [];
}

abbrev pub start : Program
start = first_program rng (λ _. new_mei rng (λ _. raw))

pub start-IsSafe : IsSafe linux_poll start
start-IsSafe = record {
  registry = record {
    listed = refl;
    parallel = λ e. absurd (ground (arith, e));
    distinct = tt;
    fresh = tt;
  };
  valid = λ x. record { usable = λ e. omega (arith, e); listed = tt; by_number = tt; by_peer = tt };
}

-- A poll that finds both sockets readable.
abbrev pub both : List PollEntry → ℕ → Polled
both _ _ = record { result = 2; revents = 1 ∷ 1 ∷ [] }
