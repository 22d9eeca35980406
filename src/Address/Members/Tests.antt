-- ===== src/Address/Members/Tests.antt =====
-- Addresses set and written.
use net_port.Common.{ℕ, ◌+◌, ◌*◌, ◌^◌, ◌<◌, ◌≡◌, refl, arith, [], ◌∷◌, Option, none, some}
use net_port.Buffer.{zeros, set_byte, store}
use net_port.Address.{NetworkAddress, undefined_address, neta_ip4, address_length, sockaddr_in_size}
use net_port.Address.Text.{ip4, ip4_loop}
use net_port.Address.Six.{
  ip6, ip6_loop, read_char, hex_value, end_section, finish_words, expand, move_words, fill_words,
}
use net_port.Address.Members.{
  AddrInfo, af_inet, af_inet6, ip4_chars_port, ip4_chars, c_string, set_port, ip4_string,
  ip6_string, to_string, port_of, octets_of, words_of, new_address,
}
use net_port.Address.Members.Texts.{ip4_string-to_string}
use net_port.Address.Members.Resolved.{new_address-resolved}

-- 10.0.7.9 with port 258
abbrev ours : NetworkAddress
ours = record undefined_address {
  af = neta_ip4;
  sa_data = set_byte (set_byte (set_byte (set_byte (set_byte zeros 0 1) 1 2) 2 10) 4 7) 5 9;
}

ours_small : (i : ℕ) → i < 6 → ours.sa_data i < 256
ours_small i inside = ground arith

ip4_string-to_string_example :
    let c = ip4_string zeros (to_string ours) (port_of ours) undefined_address in
    (c.af ≡ neta_ip4)
    × ((i : ℕ) → i < 4 → octets_of c i ≡ octets_of ours i)
    × (port_of c ≡ port_of ours)
    × (to_string c ≡ to_string ours)
ip4_string-to_string_example = ip4_string-to_string ours undefined_address zeros refl ours_small

-- A text ends at a zero.
c_text : port_of (ip4_chars_port zeros (49 ∷ 0 ∷ 50 ∷ []) 770 undefined_address) ≡ 770
unfolding ip4_chars_port ip4_chars c_string set_port ip4 ip4_loop
c_text = refl

word_at_seven : Option NetworkAddress → ℕ
word_at_seven none = 0
word_at_seven (some a) = words_of a 7

six_words : word_at_seven (ip6_string (58 ∷ 58 ∷ 49 ∷ []) 80 undefined_address) ≡ 1
unfolding word_at_seven ip6_string ip6 ip6_loop read_char hex_value end_section finish_words expand
    move_words fill_words store
six_words = refl

abbrev answer : AddrInfo
answer = record { socktype = 1; protocol = 6; ai_family = 10; bytes = zeros; addrlen = 28 }

new_address-resolved_example :
    (a : NetworkAddress) × (new_address (λ _ _. some answer) [] 80 undefined_address ≡ some a)
    × (answer.ai_family ≡ af_inet
        → (address_length a ≡ sockaddr_in_size)
          × ((i : ℕ) → i < 4 → octets_of a i ≡ answer.bytes (4 + i))
          × (80 < 2 ^ 16 → port_of a ≡ 80))
    × (answer.ai_family ≡ af_inet6
        → (address_length a ≡ 0)
          × (to_string a ≡ [])
          × (port_of a ≡ answer.bytes 2 * 256 + answer.bytes 3))
new_address-resolved_example =
    new_address-resolved (λ _ _. some answer) [] 80 undefined_address answer refl (omega arith)
