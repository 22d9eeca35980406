-- ===== src/Time/Elapsed.antt =====
-- What the clock of Windows shows is the time since the start of its counter.
use net_port.Common.{ℕ, ◌+◌, ◌*◌, ◌/◌, ◌%◌, ◌^◌, ◌<◌, ◌≤◌, ◌≡◌, ◌∙◌, sym, ap, arith}
use native.Mathlib.Nat.{div-lt_iff_lt-mul, mul-add-div_right, div-add-mod', mod-lt}
use net_port.Time.{TimeValue, get_time_windows}

-- The time in nanoseconds.
abbrev total : TimeValue → ℕ
total t = t.seconds * 1000000000 + t.nanoseconds

rest_small : (ticks freq : ℕ) → 0 < freq → ticks % freq * 1000000000 / freq < 1000000000
rest_small ticks freq h =
    let (_, to) = div-lt_iff_lt-mul {k = freq} {x = ticks % freq * 1000000000} {y = 1000000000} h in
    to (let less : ticks % freq < freq = mod-lt ticks h in omega (arith, less))

ticks_split :
    (ticks freq : ℕ)
    → 0 < freq
    → ticks / freq * 1000000000 + ticks % freq * 1000000000 / freq ≡ ticks * 1000000000 / freq
ticks_split ticks freq h =
    sym (mul-add-div_right h (ticks / freq * 1000000000) (ticks % freq * 1000000000))
    ∙ ap (λ (n : ℕ). n / freq)
        (let e : ticks / freq * freq + ticks % freq ≡ ticks = div-add-mod' ticks freq in
          omega (arith, ap (λ (n : ℕ). n * 1000000000) e))

-- With a frequency above 0 and of at most 18446744073 a second, and less than 2 ^ 32 seconds since
-- the counter was 0: the nanoseconds of get_time on Windows are less than a second, and the time is
-- that of the counter, rounded down to a nanosecond.
get_time_windows-total :
    (ticks freq : ℕ)
    → 0 < freq
    → freq ≤ 18446744073
    → ticks / freq < 2 ^ 32
    → ((get_time_windows ticks freq).nanoseconds < 1000000000)
      × (total (get_time_windows ticks freq) ≡ ticks * 1000000000 / freq)
unfolding get_time_windows
get_time_windows-total ticks freq h most short =
    let less : ticks % freq < freq = mod-lt ticks h in
    let whole : ticks % freq * 1000000000 % 2 ^ 64 ≡ ticks % freq * 1000000000 =
      omega (arith, less, most) in
    let small = rest_small ticks freq h in
    let low : ticks % freq * 1000000000 % 2 ^ 64 / freq % 2 ^ 32
        ≡ ticks % freq * 1000000000 / freq =
      ap (λ (n : ℕ). n / freq % 2 ^ 32) whole ∙ omega (arith, small) in
    let high : ticks / freq % 2 ^ 32 ≡ ticks / freq = omega (arith, short) in
    (
      omega (arith, low, small),
      ap (λ (n : ℕ). n * 1000000000 + (get_time_windows ticks freq).nanoseconds) high
          ∙ ap (λ (n : ℕ). ticks / freq * 1000000000 + n) low
          ∙ ticks_split ticks freq h,
    )
