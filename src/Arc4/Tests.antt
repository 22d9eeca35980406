-- ===== src/Arc4/Tests.antt =====
-- The theorems on the random words at concrete states.
use net_port.Common.{
  ℕ, suc, ◌+◌, ◌*◌, ◌/◌, ◌^◌, ◌%◌, ◌≤◌, ◌<◌, ◌≡◌, refl, arith, true, false, none, some, pos,
}
use net_port.Buffer.{zeros}
use net_port.Arc4.{
  arc4_getword, Arc4, Source, arc4random, uniform_min, arc4_stir_if_needed, arc4random_uniform,
  arc4_getbyte, arc4_init,
}
use net_port.Arc4.Permutation.{IsReady, arc4random-IsReady}
use net_port.Arc4.Uniform.{uniform-unbiased}
use net_port.Arc4.Reroll.{arc4random_uniform-first, drawn_word, after_draws}

-- The statics before the first call.
abbrev fresh : Arc4
fresh = record {
  rs = record { i = 0; j = 0; s = zeros };
  initialized = false;
  count = pos 0;
  seeded_ok = false;
}

abbrev no_source : Source
no_source _ = none

first_byte : (arc4_getbyte (arc4_init (record { i = 9; j = 9; s = zeros }))).0 ≡ 2
unfolding arc4_getbyte arc4_init
first_byte = refl

arc4random-IsReady_example :
    ((arc4random no_source fresh).0 < 2 ^ 32) × IsReady (arc4random no_source fresh).1
arc4random-IsReady_example = arc4random-IsReady no_source fresh (λ e. cc)

uniform_min_example : uniform_min 6 ≡ 4
unfolding uniform_min
uniform_min_example = refl

uniform-unbiased_example :
    (uniform_min 6 + 2 ^ 32 / 6 * 6 ≡ 2 ^ 32)
    × (uniform_min 6 * 2 ≤ 2 ^ 32)
    × ((k : ℕ)
        → k < 2 ^ 32 / 6
        → (r : ℕ) × (uniform_min 6 + k * 6 ≤ r)
          × (r < uniform_min 6 + suc k * 6)
          × (r % 6 ≡ 5)
          × ((s : ℕ)
              → uniform_min 6 + k * 6 ≤ s
              → s < uniform_min 6 + suc k * 6
              → s % 6 ≡ 5
              → s ≡ r))
uniform-unbiased_example = uniform-unbiased 6 5 (omega arith) (omega arith) (omega arith)

abbrev no_sources : ℕ → Source
no_sources _ = no_source

-- A table that was set up, with bytes left before the next seeding.
abbrev set_up : Arc4
set_up = record {
  rs = record { i = 0; j = 0; s = λ k. k };
  initialized = true;
  count = pos 100;
  seeded_ok = true;
}

first_word : drawn_word 0 no_sources set_up ≡ 0x0205070d
unfolding arc4random arc4_stir_if_needed after_draws arc4_getword
first_word = refl

accepted : uniform_min 6 ≤ drawn_word 0 no_sources set_up
accepted = rw (uniform_min_example, first_word) (omega arith)

arc4random_uniform-first_example :
    (b : Arc4) × (arc4random_uniform 1 6 no_sources set_up
      ≡ some (drawn_word 0 no_sources set_up % 6, b))
    × (drawn_word 0 no_sources set_up % 6 < 6)
arc4random_uniform-first_example =
    arc4random_uniform-first 1 6 0 no_sources set_up (omega arith) (omega arith) accepted
      (λ i p. absurd (omega arith))
