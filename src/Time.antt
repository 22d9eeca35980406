-- ===== src/Time.antt =====
-- The clock and the pause of src/network.cpp (`get_time`, `sleep`, with `TimeValue` of
-- include/net/network.h). The calls of the system are parameters.
mod Elapsed
mod Tests
use net_port.Common.{
  ℕ, suc, ◌*◌, ◌/◌, ◌%◌, ◌-◌, ◌^◌, ℤ, pos, negsuc, Option, none, some, ltb, leb, if◌then◌else◌,
}

pub record TimeValue : Type 0 where
  pub seconds : ℕ
  pub nanoseconds : ℕ

-- get_time on Linux, where clock_gettime says what clock 4 shows; if it fails, the result is what the
-- local variable held.
unfoldable pub get_time : (ℕ → Option TimeValue) → TimeValue → TimeValue
get_time clock_gettime tvs = elim (clock_gettime 4) [ none ↦ tvs | some t ↦ t ]

-- get_time on Windows, where a long has 32 bits: from the counter and its frequency
unfoldable pub get_time_windows : ℕ → ℕ → TimeValue
get_time_windows ticks freq =
    let leftovers = ticks % freq in
    record {
      seconds = ticks / freq % 2 ^ 32;
      nanoseconds = leftovers * 1000000000 % 2 ^ 64 / freq % 2 ^ 32;
    }

-- sleep on Linux: `none` is a product that is no int. usleep takes the bits of the int.
unfoldable pub sleep : (ℕ → ℕ) → ℤ → Option ℕ
sleep usleep (pos msec) = if ltb (msec * 1000) (2 ^ 31) then some (usleep (msec * 1000)) else none
sleep usleep (negsuc m) =
    if leb (suc m * 1000) (2 ^ 31) then some (usleep (2 ^ 32 - suc m * 1000)) else none
