-- ===== src/Address/Members/Resolved.antt =====
-- Addresses from name resolution.
use net_port.Common.{
  ℕ, ◌+◌, ◌*◌, ◌^◌, ◌≤◌, ◌<◌, ◌≡◌, refl, arith, List, [], Option, none, some, u16, ltb,
  if◌then◌else◌,
}
use net_port.Address.{NetworkAddress, address_length, sockaddr_in_size}
use net_port.Address.Members.{
  copied, sockaddr_room, AddrInfo, af_inet, af_inet6, resolve, set_port, to_string, octets_of,
  port_of, new_address,
}

abbrev given : AddrInfo → NetworkAddress → NetworkAddress
given res raw =
    copied (if ltb sockaddr_room res.addrlen then sockaddr_room else res.addrlen) res.bytes
      (record raw { type = res.socktype; proto = res.protocol; af = u16 res.ai_family })

-- If getaddrinfo answers with the sixteen bytes or more of an address, the constructor with a port
-- returns. For an IPv4 answer the address has the length of one, the octets of the answer and the
-- port given, if it is one of 16 bits. For an IPv6 answer of Linux the length is 0, the text is
-- empty, and the port is not set.
pub new_address-resolved :
    (lookup : List ℕ → Option (List ℕ) → Option AddrInfo) (host : List ℕ) (p : ℕ)
    (raw : NetworkAddress) (res : AddrInfo)
    → lookup host none ≡ some res
    → 16 ≤ res.addrlen
    → (a : NetworkAddress) × (new_address lookup host p raw ≡ some a)
      × (res.ai_family ≡ af_inet
          → (address_length a ≡ sockaddr_in_size)
            × ((i : ℕ) → i < 4 → octets_of a i ≡ res.bytes (4 + i))
            × (p < 2 ^ 16 → port_of a ≡ p))
      × (res.ai_family ≡ af_inet6
          → (address_length a ≡ 0)
            × (to_string a ≡ [])
            × (port_of a ≡ res.bytes 2 * 256 + res.bytes 3))
unfolding new_address resolve set_port address_length to_string
new_address-resolved lookup host p raw res e long = (
  set_port p (given res raw),
  rw (e, new_address, resolve) refl,
  λ four. (ground (arith, four), λ i inside. ground (arith, four), λ small. ground (arith, four)),
  λ six. (ground (arith, six), ground (arith, six), ground (arith, six)),
)
