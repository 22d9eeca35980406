-- ===== src/Program/Tests.antt =====
-- A program with two systems.
use net_port.Common.{some, ◌≡◌, ◌↔◌, true, false, refl, arith, List, [], ◌∷◌}
use net_port.Program.{
  knows, Act, initializes, destroys, binds_to, connects_to, receives, controls, shuts,
}
use net_port.Address.{undefined_address}
use net_port.Query.{linux_poll}
use net_port.Program.Isolation.{act_all-isolates}
use net_port.Program.Sample.{raw, network, sources, host, start, start-IsSafe, both}
use net_port.Program.Running.{Running, begun, act_all, lists_gone}
use net_port.Program.Book.{IsSound, RunsOn, book_of, fits, allows, book_after}
use net_port.Program.Runs.{act_all-RunsOn}

abbrev acts : List Act
acts =
    initializes 4 2
    ∷ initializes 5 2
    ∷ binds_to 4 undefined_address
    ∷ connects_to 5 undefined_address
    ∷ receives both
    ∷ controls
    ∷ destroys 4
    ∷ receives both
    ∷ []

abbrev first : Running
first = begun start

first-IsSound : IsSound linux_poll first
unfolding lists_gone
first-IsSound = record { safe = start-IsSafe; live = refl }

act_all-RunsOn_example :
    (fits acts (book_of first) ≡ true)
    ↔ RunsOn linux_poll (act_all network sources raw host linux_poll acts first)
act_all-RunsOn_example =
    act_all-RunsOn network sources raw host linux_poll (λ _ _ z. omega (arith, z)) acts first
      first-IsSound

-- A second init of one system returns; the destructor then waits for ever. Nothing may be done with a
-- system that is gone.
refused_once : fits (initializes 4 2 ∷ initializes 4 2 ∷ shuts 4 ∷ []) (book_of first) ≡ true
unfolding fits allows book_after
refused_once = refl

refused_waits : fits (initializes 4 2 ∷ initializes 4 2 ∷ destroys 4 ∷ []) (book_of first) ≡ false
unfolding fits allows book_after
refused_waits = refl

destroyed_used : fits (destroys 4 ∷ shuts 4 ∷ []) (book_of first) ≡ false
unfolding fits allows book_after
destroyed_used = refl

-- The acts of the systems 4 and 5 leave the system 6 alone.
act_all-isolates_example :
    (q : Running) × (act_all network sources raw host linux_poll acts first ≡ some q)
    × (q.program.meis 6 ≡ start.meis 6)
unfolding knows fits allows book_after
act_all-isolates_example =
    act_all-isolates network sources raw host linux_poll 6 (λ _ _ z. omega (arith, z)) acts first
      first-IsSound refl (refl, (refl, (refl, (refl, (refl, (refl, (refl, (refl, tt)))))))) refl
