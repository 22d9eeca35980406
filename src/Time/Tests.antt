-- ===== src/Time/Tests.antt =====
-- Runs of the clock and the pause.
use net_port.Common.{◌≡◌, refl, pos, negsuc, none, some}
use net_port.Time.{get_time, sleep}

-- A second, and a pause that the product makes too long for an int
sleep_second : sleep (λ n. n) (pos 1000) ≡ some 1000000
unfolding sleep
sleep_second = refl

sleep_long : sleep (λ n. n) (pos 2147484) ≡ none
unfolding sleep
sleep_long = refl

-- A negative time asks for a long pause.
sleep_back : sleep (λ n. n) (negsuc 0) ≡ some 4294966296
unfolding sleep
sleep_back = refl

clock_fails :
    get_time (λ _. none) (record { seconds = 7; nanoseconds = 8 })
    ≡ record { seconds = 7; nanoseconds = 8 }
unfolding get_time
clock_fails = refl
