-- ===== src/Address/Text.antt =====
-- The text of an IPv4 address (src/network.cpp): `ip4` on a string, and the IPv4 branch of
-- `to_string`. A character is its code; the four octets lie at the positions 0 to 3 of a buffer.
use net_port.Common.{
  ℕ, zero, suc, ◌+◌, ◌-◌, ◌*◌, ◌/◌, ◌%◌, Bool, true, false, ◌&&◌, List, [], ◌∷◌, ◌++◌, ◌==◌, leb,
  ltb, if◌then◌else◌, u8, pos,
}
use net_port.Address.Itoan.{n_itoan, Written, in_buffer}
use net_port.Buffer.{Buffer, set_byte}

abbrev pub dot : ℕ
dot = 46

abbrev pub colon : ℕ
colon = 58

abbrev pub is_digit : ℕ → Bool
is_digit c = leb 48 c && leb c 57

-- The loop of ip4 and the store behind it: `ipev` and `sect` are its variables, `aa` the octets. It
-- stops at the end of the text or after four sections.
unfoldable pub ip4_loop : List ℕ → ℕ → ℕ → Buffer → Buffer
ip4_loop [] ipev sect aa = if ltb sect 4 then set_byte aa sect ipev else aa
ip4_loop (c ∷ cs) ipev sect aa = elim (ltb sect 4) [
  | false ↦ aa
  | true ↦ elim (is_digit c) [
    | true ↦ ip4_loop cs (u8 (ipev * 10 + (c - 48))) sect aa
    | false ↦ ip4_loop cs 0 (sect + 1) (set_byte aa sect ipev)
  ]
]

-- ip4: the octets start as whatever the memory held.
unfoldable pub ip4 : List ℕ → Buffer → Buffer
ip4 text aa = ip4_loop text 0 0 aa

-- The digit loops: at most `room` digits, the last one first.
unfoldable pub put_digits : ℕ → ℕ → List ℕ → List ℕ
put_digits zero k text = text
put_digits (suc room) k text = elim (k == 0) [
  | true ↦ text
  | false ↦ put_digits room (k / 10) ((48 + k % 10) ∷ text)
]

unfoldable pub octet_text : ℕ → List ℕ
octet_text k = if k == 0 then 48 ∷ [] else put_digits 3 k []

-- append of what n_itoan wrote; a null text or a fault does not come up.
abbrev pub appended : Written → List ℕ
appended (in_buffer s) = s
appended _ = []

-- n_itoan with ten bytes
unfoldable pub number_text : ℕ → ℕ → List ℕ
unfolding n_itoan
number_text radix v = appended (n_itoan (pos v) 10 radix)

unfoldable pub port_text : ℕ → List ℕ
unfolding number_text
port_text port = number_text 10 port

unfoldable pub to_string : Buffer → ℕ → List ℕ
to_string aa port =
    octet_text (aa 0)
    ++ (dot
        ∷ (octet_text (aa 1)
            ++ (dot
                ∷ (octet_text (aa 2) ++ (dot ∷ (octet_text (aa 3) ++ (colon ∷ port_text port)))))))
