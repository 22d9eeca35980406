-- ===== src/Address/Tests.antt =====
-- The text of an address, and reading it back.
use net_port.Common.{ℕ, ◌≡◌, ◌<◌, refl, [], ◌∷◌, arith, negsuc, List, length, ◌^◌}
use net_port.Buffer.{Buffer, set_byte}
use net_port.Address.Itoan.{n_itoan, itoan_loop, radix_lookup, in_buffer}
use net_port.Address.Itoan.Value.{n_itoan-read, signed_text, magnitude, digit_room, read_digits}
use net_port.Address.Text.{number_text, to_string, octet_text, put_digits, port_text}

abbrev octets : Buffer
octets = set_byte (set_byte (λ _. 7) 0 192) 1 0

-- 192.0.7.7:80
octets_text : to_string octets 80 ≡ 49 ∷ 57 ∷ 50 ∷ 46 ∷ 48 ∷ 46 ∷ 55 ∷ 46 ∷ 55 ∷ 58 ∷ 56 ∷ 48 ∷ []
unfolding to_string octet_text put_digits port_text number_text n_itoan itoan_loop radix_lookup
octets_text = refl

-- -255 in radix 16, in a buffer of ten bytes
n_itoan-read_example :
    (digits : List ℕ) × (n_itoan (negsuc 254) 10 16 ≡ in_buffer (signed_text (negsuc 254) digits))
    × (length (signed_text (negsuc 254) digits) < 10)
    × (magnitude (negsuc 254) < 16 ^ digit_room (negsuc 254) 10
        → read_digits 16 0 digits ≡ magnitude (negsuc 254))
n_itoan-read_example =
    n_itoan-read (negsuc 254) 10 16 (omega arith) (omega arith) (omega arith) (omega arith)
