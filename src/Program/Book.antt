-- ===== src/Program/Book.antt =====
-- What decides whether an act returns: the systems that are registered, whether the locks are kept,
-- and the systems that are gone.
use net_port.Control.{includes, without}
use net_port.Schedule.Registered.{systems_of}
use net_port.Common.{
  ℕ, ◌≡◌, ◌∙◌, refl, ap, Bool, true, false, not, ◌&&◌, ◌||◌, List, [], ◌∷◌, ◌++◌, Option, some,
  arith,
}
use net_port.Query.{NativePoll, QueryEntry}
use net_port.Program.{
  Eco, Act, initializes, destroys, binds_to, shuts, connects_to, receives, controls,
}
use net_port.Program.Registry.{entry, entries}
use net_port.Program.Rounds.{IsSafe}
use net_port.Program.Acts.{listed_after}
use net_port.Program.Running.{Running, lists_gone, polls_gone, fails}

pub record Book : Type 0 where
  pub live : List ℕ
  pub kept : Bool
  pub gone : List ℕ

abbrev pub book_of : Running → Book
book_of r = record { live = systems_of r.program.systems; kept = r.kept; gone = r.gone }

-- No act uses a system that is gone, and none needs the locks once they are kept.
unfoldable pub allows : Act → Book → Bool
allows (initializes x af) b = not b.kept && not (includes b.gone x)
allows (destroys x) b = not b.kept && not (includes b.gone x)
allows (binds_to x a) b = not (includes b.gone x)
allows (shuts x) b = not (includes b.gone x)
allows (connects_to x a) b = not (includes b.gone x)
allows (receives poll) b = not b.kept
allows controls b = not b.kept

-- A second init of a registered system keeps the locks.
unfoldable pub book_after : Act → Book → Book
book_after (initializes x af) b = record {
  live = listed_after (initializes x af) b.live;
  kept = includes b.live x;
  gone = b.gone;
}
book_after (destroys x) b = record { live = without b.live x; kept = b.kept; gone = x ∷ b.gone }
book_after _ b = b

unfoldable pub fits : List Act → Book → Bool
unfolding allows book_after
fits [] b = true
fits (a ∷ later) b = allows a b && fits later (book_after a b)

-- The program is safe, and no system on its list is gone.
pub record IsSound (n : NativePoll) (r : Running) : Type 0 where
  pub safe : IsSafe n r.program
  pub live : lists_gone r.gone r.program.systems ≡ false

-- The acts return, and what they leave is sound.
abbrev pub RunsOn : NativePoll → Option Running → Type 0
RunsOn n o = (q : Running) × (o ≡ some q) × IsSound n q

-- The same on the numbers of the systems
unfoldable pub any_gone : List ℕ → List ℕ → Bool
any_gone gone [] = false
any_gone gone (x ∷ xs) = includes gone x || any_gone gone xs

pub lists-any : (gone : List ℕ) (es : List Eco) → lists_gone gone es ≡ any_gone gone (systems_of es)
unfolding lists_gone any_gone
lists-any gone [] = refl
lists-any gone (e ∷ es) = ap (λ (b : Bool). includes gone e.sys || b) (lists-any gone es)

pub without-any :
    (gone xs : List ℕ) (x : ℕ)
    → any_gone gone xs ≡ false
    → any_gone (x ∷ gone) (without xs x) ≡ false
unfolding any_gone
without-any gone [] x h = refl
without-any gone (y ∷ xs) x h = ground (arith, without-any gone xs x)

polls-append :
    (gone : List ℕ) (ts us : List QueryEntry)
    → polls_gone gone ts ≡ false
    → polls_gone gone us ≡ false
    → polls_gone gone (ts ++ us) ≡ false
unfolding polls_gone
polls-append gone [] us h k = k
polls-append gone (t ∷ ts) us h k = ground (arith, polls-append gone ts us)

polls-entries :
    (gone : List ℕ) (n : NativePoll) (es : List Eco)
    → lists_gone gone es ≡ false
    → polls_gone gone (entries n es) ≡ false
unfolding lists_gone polls_gone
polls-entries gone n [] h = refl
polls-entries gone n (e ∷ es) h =
    polls-append gone (entries n es) (entry n e ∷ []) (polls-entries gone n es (ground arith))
      (ground arith)

-- On a sound program the acts that fail are those that the book does not allow.
pub fails-allows :
    (n : NativePoll) (a : Act) (r : Running) → IsSound n r → fails a r ≡ not (allows a (book_of r))
unfolding fails allows
fails-allows n (initializes x af) r v = ground arith
fails-allows n (destroys x) r v = ground arith
fails-allows n (binds_to x a) r v = ground arith
fails-allows n (shuts x) r v = ground arith
fails-allows n (connects_to x a) r v = ground arith
fails-allows n (receives poll) r v =
    let polled : polls_gone r.gone r.program.systemquery.qlist ≡ false =
      ap (polls_gone r.gone) v.safe.registry.listed
      ∙ polls-entries r.gone n r.program.systems v.live in
    ground (arith, polled, v.live)
fails-allows n controls r v = ground (arith, v.live)
