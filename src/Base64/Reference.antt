-- ===== src/Base64/Reference.antt =====
-- Base 64 of bytes as RFC 4648 gives it: three bytes are four characters.
use net_port.Common.{ℕ, ◌^◌, ◌++◌, ◌+◌, ◌*◌, ◌/◌, ◌%◌, ◌-◌, ◌==◌, ltb, if◌then◌else◌, List, [], ◌∷◌}

-- The characters of RFC 4648 for the values below 64
unfoldable pub alphabet : ℕ → ℕ
alphabet v =
    if ltb v 26
    then 65 + v
    else if ltb v 52
    then 97 + (v - 26)
    else if ltb v 62
    then 48 + (v - 52)
    else if v == 62
    then 43
    else 47

-- '='
abbrev pub padding : ℕ
padding = 61

unfoldable pub encode : List ℕ → List ℕ
encode [] = []
encode (x ∷ []) = alphabet (x / 4) ∷ alphabet (x % 4 * 16) ∷ padding ∷ padding ∷ []
encode (x ∷ y ∷ []) =
    alphabet (x / 4) ∷ alphabet (x % 4 * 16 + y / 16) ∷ alphabet (y % 16 * 4) ∷ padding ∷ []
encode (x ∷ y ∷ z ∷ bs) =
    alphabet (x / 4)
    ∷ alphabet (x % 4 * 16 + y / 16)
    ∷ alphabet (y % 16 * 4 + z / 64)
    ∷ alphabet (z % 64)
    ∷ encode bs

-- The four bytes of a word, the highest first.
abbrev pub big_endian : ℕ → List ℕ
big_endian w = w / 2 ^ 24 ∷ w / 2 ^ 16 % 256 ∷ w / 2 ^ 8 % 256 ∷ w % 256 ∷ []

abbrev pub word_bytes : List ℕ → List ℕ
word_bytes [] = []
word_bytes (w ∷ ws) = big_endian w ++ word_bytes ws
