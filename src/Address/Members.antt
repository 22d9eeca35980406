-- ===== src/Address/Members.antt =====
-- The members of `NetworkAddress` (src/network.cpp) that set it and give its text, on the layout of
-- sockaddr_in and sockaddr_in6 behind sa_family: the port, highest byte first, in the first two
-- bytes; an IPv4 address in the next four; an IPv6 address in sixteen behind four more.
pub mod Texts
pub mod Resolved
mod Tests
use net_port.Common.{
  ℕ, zero, suc, ◌+◌, ◌-◌, ◌*◌, ◌/◌, ◌%◌, ◌^◌, Bool, true, false, ◌||◌, ◌&&◌, List, [], ◌∷◌, Option,
  none, some, ◌==◌, leb, ltb, if◌then◌else◌, u8, u16,
}
use net_port.Buffer.{Buffer, set_byte, store}
use net_port.Address.{NetworkAddress, neta_ip4, neta_ip6}
use net_port.Address.Text
use net_port.Address.Text.{ip4}
use net_port.Address.Six
use net_port.Address.Six.{ip6, Reading, invalid, overrun, words}

-- AF_INET and AF_INET6 of Linux
abbrev pub af_inet : ℕ
af_inet = 2

abbrev pub af_inet6 : ℕ
af_inet6 = 10

-- The store of htons(p)
abbrev pub put_port : ℕ → Buffer → Buffer
put_port p m = set_byte (set_byte m 0 (p / 256)) 1 (p % 256)

abbrev pub put_octets : Buffer → Buffer → Buffer
put_octets aa m = set_byte (set_byte (set_byte (set_byte m 2 (aa 0)) 3 (aa 1)) 4 (aa 2)) 5 (aa 3)

-- The bytes of the words
abbrev pub six_bytes : ℕ → ℕ → Buffer → List ℕ
six_bytes zero i aa6 = []
six_bytes (suc n) i aa6 = aa6 i / 256 ∷ aa6 i % 256 ∷ six_bytes n (i + 1) aa6

abbrev pub port_of : NetworkAddress → ℕ
port_of a = a.sa_data 0 * 256 + a.sa_data 1

abbrev pub octets_of : NetworkAddress → Buffer
octets_of a i = a.sa_data (2 + i)

abbrev pub words_of : NetworkAddress → Buffer
words_of a i = a.sa_data (6 + 2 * i) * 256 + a.sa_data (7 + 2 * i)

-- port(p)
unfoldable pub set_port : ℕ → NetworkAddress → NetworkAddress
set_port p a =
    if a.af == neta_ip4 || a.af == neta_ip6 then record a { sa_data = put_port p a.sa_data } else a

abbrev pub with_octets : Buffer → NetworkAddress → NetworkAddress
with_octets aa a = record a { family = af_inet; af = neta_ip4; sa_data = put_octets aa a.sa_data }

-- ip4(const std::string &, unsigned short), where the octets start as `raw`
unfoldable pub ip4_string : Buffer → List ℕ → ℕ → NetworkAddress → NetworkAddress
ip4_string raw text p a =
    let b = with_octets (ip4 text raw) a in record b { sa_data = put_port p b.sa_data }

-- ip4(const std::string &)
unfoldable ip4_without_port : Buffer → List ℕ → NetworkAddress → NetworkAddress
unfolding ip4_string
ip4_without_port raw text a = ip4_string raw text 0 a

-- The text up to the first character that is not above 0, as a char
unfoldable pub c_string : List ℕ → List ℕ
c_string [] = []
c_string (c ∷ cs) = let rest = c_string cs in if c == 0 || leb 128 c then [] else c ∷ rest

-- ip4(const char *), and with a port
unfoldable pub ip4_chars : Buffer → List ℕ → NetworkAddress → NetworkAddress
ip4_chars raw text a = with_octets (ip4 (c_string text) raw) a

unfoldable pub ip4_chars_port : Buffer → List ℕ → ℕ → NetworkAddress → NetworkAddress
unfolding ip4_chars set_port
ip4_chars_port raw text p a = set_port p (ip4_chars raw text a)

-- ip4 of four bytes
unfoldable pub ip4_bytes : ℕ → ℕ → ℕ → ℕ → NetworkAddress → NetworkAddress
ip4_bytes i₁ i₂ i₃ i₄ a =
    with_octets (λ k. if k == 0 then i₁ else (if k == 1 then i₂ else (if k == 2 then i₃ else i₄))) a

-- ip4(unsigned long), through htonl
unfoldable pub ip4_number : ℕ → NetworkAddress → NetworkAddress
unfolding ip4_bytes
ip4_number i a = ip4_bytes (i / 2 ^ 24 % 256) (i / 2 ^ 16 % 256) (i / 2 ^ 8 % 256) (i % 256) a

-- ip6; `none` is the store behind the words.
unfoldable pub ip6_string : List ℕ → ℕ → NetworkAddress → Option NetworkAddress
ip6_string text p a =
    let b : NetworkAddress = record a { family = af_inet6; af = neta_ip6 } in
    elim (ip6 text (words_of a)) [
      | invalid ↦ some b
      | overrun ↦ none
      | words aa6 ↦ some (record b { sa_data = put_port p (store b.sa_data 6 (six_bytes 8 0 aa6)) })
    ]

unfoldable pub to_string : NetworkAddress → List ℕ
to_string a =
    if a.af == neta_ip4
    then Text.to_string (octets_of a) (port_of a)
    else (if a.af == neta_ip6 then Six.to_string (words_of a) (port_of a) else [])

-- What getaddrinfo gives: `bytes` are those of its address, sa_family first.
pub record AddrInfo : Type 0 where
  pub socktype : ℕ
  pub protocol : ℕ
  pub ai_family : ℕ
  pub bytes : Buffer
  pub addrlen : ℕ

abbrev pub sockaddr_room : ℕ
sockaddr_room = 50

-- memcpy of `n` bytes to `addr`; the length of the address is two or more.
abbrev pub copied : ℕ → Buffer → NetworkAddress → NetworkAddress
copied n bytes a = record a {
  family = bytes 0 + bytes 1 * 256;
  sa_data = λ i. if ltb (i + 2) n then bytes (i + 2) else a.sa_data i;
}

-- resolve, with a service or without; `lookup` is getaddrinfo. If it fails, freeaddrinfo gets a
-- pointer that nothing has been stored in.
module _ (lookup : List ℕ → Option (List ℕ) → Option AddrInfo) where
  unfoldable pub resolve : List ℕ → Option (List ℕ) → NetworkAddress → Option NetworkAddress
  resolve host service a = elim (lookup host service) [
    | none ↦ none
    | some res ↦ some (
        copied (if ltb sockaddr_room res.addrlen then sockaddr_room else res.addrlen) res.bytes
          (record a { type = res.socktype; proto = res.protocol; af = u16 res.ai_family }))
  ]

  -- NetworkAddress(host, port), on the memory `raw`
  unfoldable pub new_address : List ℕ → ℕ → NetworkAddress → Option NetworkAddress
  unfolding resolve set_port
  new_address host p raw = elim (resolve host none raw) [
    | none ↦ none
    | some a ↦ some (set_port p a)
  ]

  -- NetworkAddress(host) and NetworkAddress(host, service), on the memory `raw`
  unfoldable named_address : List ℕ → NetworkAddress → Option NetworkAddress
  unfolding resolve
  named_address host raw = resolve host none raw

  unfoldable service_address : List ℕ → List ℕ → NetworkAddress → Option NetworkAddress
  unfolding resolve
  service_address host service raw = resolve host (some service) raw
