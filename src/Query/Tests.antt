-- ===== src/Query/Tests.antt =====
-- A query of two sockets, and the theorems at its polls.
use net_port.Query.{
  refill, windows_poll, linux_poll, query_type_to_native, native_to_query_type, PollEntry, Query,
  Polled, rebuild, write_revents, i_poll,
}
use net_port.Common.{ℕ, ◌+◌, ◌≡◌, ◌≢◌, true, false, List, [], ◌∷◌, none, some, arith}
use net_port.System.{minus_one}
use net_port.Query.Types.{native_to_query_type-query_type_to_native, joined}
use net_port.Query.Parallel.{IsParallel, removes, changes, i_poll-IsParallel}
use net_port.Query.Delivery.{Call, logged, due, i_poll-due}

native_to_query_type-query_type_to_native_example :
    (native_to_query_type windows_poll (query_type_to_native windows_poll 5) ≡ 5)
    × (native_to_query_type linux_poll (query_type_to_native linux_poll 5) ≡ joined 5)
native_to_query_type-query_type_to_native_example =
    native_to_query_type-query_type_to_native 5 (omega arith)

-- Sockets 3 and 4, to be read; the second has no callback.
abbrev two : Query
two = record {
  plist = [];
  qlist =
      record { sck = 3; type = 0x100; eco = some 8 }
      ∷ record { sck = 4; type = 0x100; eco = none }
      ∷ [];
  inval = true;
}

abbrev both_ready : List PollEntry → ℕ → Polled
both_ready ps msec = record { result = 2; revents = 0x100 ∷ 0x100 ∷ [] }

abbrev handle : ℕ → ℕ
handle sck = sck + 10

two-IsParallel : IsParallel two
two-IsParallel h = cc

i_poll-IsParallel_example :
    (r : ℕ) × (q' : Query) × (s' : List Call) × (i_poll windows_poll logged handle both_ready
        (changes windows_poll (removes 3 ∷ []))
        1
        two
        []
      ≡ some (r, q', s'))
    × IsParallel q'
    × (r ≢ 0 → q'.inval ≡ true → (r ≡ minus_one) × (s' ≡ []))
i_poll-IsParallel_example =
    i_poll-IsParallel windows_poll logged handle both_ready (removes 3 ∷ []) 1 two [] two-IsParallel

i_poll-due_example :
    i_poll windows_poll logged handle both_ready (λ x. x) 1 two []
    ≡ some (
      2,
      record {
        plist =
            record { fd = 13; events = 0x100; revents = 0x100 }
            ∷ record { fd = 14; events = 0x100; revents = 0x100 }
            ∷ [];
        qlist = two.qlist;
        inval = false;
      },
      record { callback = 8; sck = 3; type = 1 } ∷ [],
    )
unfolding rebuild refill write_revents due native_to_query_type
i_poll-due_example = i_poll-due windows_poll handle both_ready 1 two [] two-IsParallel
