-- ===== src/Address/Six/Tests.antt =====
-- Texts of IPv6 addresses.
use net_port.Common.{ℕ, ◌^◌, ◌<◌, ◌≡◌, refl, arith, [], ◌∷◌, Option, none, some}
use net_port.Buffer.{Buffer, zeros, set_byte}
use net_port.Address.Six.{
  ip6, groups_text, to_string, Reading, invalid, overrun, words, ip6_loop, read_char, hex_value,
  end_section, finish_words, expand, move_words, fill_words,
}
use net_port.Address.Six.Groups.{ip6-to_string}

abbrev reading_at : ℕ → Reading → Option ℕ
reading_at i (words b) = some (b i)
reading_at i _ = none

-- "::1" has 0xfefe where the text leaves words out.
short_form : reading_at 3 (ip6 (58 ∷ 58 ∷ 49 ∷ []) zeros) ≡ some 0xfefe
unfolding ip6 ip6_loop read_char hex_value end_section finish_words expand move_words fill_words
short_form = refl

short_form_last : reading_at 7 (ip6 (58 ∷ 58 ∷ 49 ∷ []) zeros) ≡ some 1
unfolding ip6 ip6_loop read_char hex_value end_section finish_words expand move_words fill_words
short_form_last = refl

-- "::1::" is no address.
twice : ip6 (58 ∷ 58 ∷ 49 ∷ 58 ∷ 58 ∷ []) zeros ≡ invalid
unfolding ip6 ip6_loop read_char hex_value end_section
twice = refl

abbrev address : Buffer
address = set_byte (set_byte zeros 0 0xfe80) 7 0xabc

address_small : (i : ℕ) → i < 8 → address i < 2 ^ 16
address_small i inside = ground arith

ip6-to_string_example :
    ((b : Buffer) × (ip6 (groups_text address []) (λ _. 9) ≡ words b)
      × ((i : ℕ) → i < 8 → b i ≡ address i))
    × (ip6 (to_string address 80) (λ _. 9) ≡ overrun)
ip6-to_string_example = ip6-to_string address (λ _. 9) 80 address_small
