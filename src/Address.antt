-- ===== src/Address.antt =====
-- `NetworkAddress` of include/net/network_common.hpp and src/network.cpp: the socket address as
-- the system lays it out, its family, and the order that the session tables sort by.
pub mod Itoan
pub mod Text
pub mod Reading
pub mod Six
pub mod Order
pub mod Members
mod Tests
use net_port.Common.{ℕ, ◌*◌, Bool, true, false, ◌||◌, not, ltb, ◌==◌, if◌then◌else◌, word32}
use net_port.Buffer.{Buffer, zeros, load}

-- `ADDRTYPE`
abbrev pub neta_undef : ℕ
neta_undef = 0

abbrev pub neta_ip4 : ℕ
neta_ip4 = 2

abbrev pub neta_ip6 : ℕ
neta_ip6 = 23

-- `net_sockaddr` lies flat in the record: `family` is sa_family and `sa_data` the bytes behind it.
pub record NetworkAddress : Type 0 where
  pub family : ℕ
  pub sa_data : Buffer
  pub af : ℕ
  pub type : ℕ
  pub proto : ℕ

abbrev pub undefined_address : NetworkAddress
undefined_address = record { family = 0; sa_data = zeros; af = neta_undef; type = 0; proto = 0 }

-- ((uint32_t*)addr.sa_data)[k]
abbrev pub word_at : NetworkAddress → ℕ → ℕ
word_at a k = word32 (load a.sa_data (4 * k) 4)

abbrev pub word_lt : NetworkAddress → NetworkAddress → ℕ → Bool
word_lt a b k = ltb (word_at a k) (word_at b k)

-- operator<
unfoldable pub lt : NetworkAddress → NetworkAddress → Bool
lt a b =
    if ltb a.af b.af || (ltb a.proto b.proto || ltb a.type b.type)
    then true
    else (if not (a.af == b.af)
        then false
        else (if a.af == neta_ip4
            then word_lt a b 0
            else (if a.af == neta_ip6
                then word_lt a b 0 || (word_lt a b 1 || (word_lt a b 2 || word_lt a b 3))
                else false)))

-- length(): sizeof of the system's address structure.
abbrev pub sockaddr_in_size : ℕ
sockaddr_in_size = 16

abbrev pub sockaddr_in6_size : ℕ
sockaddr_in6_size = 28

unfoldable pub address_length : NetworkAddress → ℕ
address_length a =
    if a.af == neta_ip4
    then sockaddr_in_size
    else (if a.af == neta_ip6 then sockaddr_in6_size else 0)

-- A pointer to `addr` given to the system: it fills in the bytes, not the other members.
abbrev pub filled : NetworkAddress → NetworkAddress → NetworkAddress
filled a given = record a { family = given.family; sa_data = given.sa_data }
