-- ===== src/Hasher.antt =====
-- `Hash` of include/net/crypt.hpp and src/crypt.cpp: a digest of one of the types, of which only
-- SHA-1 has a state. `none` is a fault of the program.
pub mod Parts
mod Tests
use net_port.Common.{ltb, if◌then◌else◌, ℕ, ◌≡◌, List, [], ◌∷◌, Option, none, some}
use net_port.Buffer.{Buffer}
use net_port.Sha1
use net_port.Sha1.{Sha1, add_message, end_message}
use net_port.Base64
use net_port.Base64.{to_base64}

-- `HASH_TYPE`
pub data HashType : Type 0 where
  ha_md2 ha_md3 ha_md5 ha_sha1 ha_sha224 ha_sha256 ha_sha384 ha_sha512 ha_sha512_224 ha_sha512_256 :
      HashType
  ha_sha3_224 ha_sha3_256 ha_sha3_384 ha_sha3_512 : HashType

-- `hs` is null for a type without a state.
pub record Hasher : Type 0 where
  pub hs : Option Sha1

-- Hash(HASH_TYPE), on memory that holds `raw`
unfoldable pub new_hash : HashType → Sha1 → Hasher
new_hash ha_sha1 raw = record { hs = some raw }
new_hash _ raw = record { hs = none }

-- A call on the state that may not return, if there is one
abbrev on_state : (Sha1 → Option Sha1) → Hasher → Option Hasher
on_state f h = elim h.hs [
  | none ↦ some h
  | some s ↦ elim (f s) [ none ↦ none | some t ↦ some (record { hs = some t }) ]
]

unfoldable pub full : List ℕ → Hasher → Option Hasher
full m h = on_state (Sha1.full m) h

unfoldable pub partial_begin : Hasher → Hasher
partial_begin h = elim h.hs [ none ↦ h | some s ↦ record { hs = some (Sha1.init s) } ]

unfoldable pub partial_add : List ℕ → Hasher → Hasher
partial_add m h = elim h.hs [ none ↦ h | some s ↦ record { hs = some (add_message m s) } ]

unfoldable pub partial_finish : Hasher → Option Hasher
partial_finish h = on_state end_message h

-- tobase64 into the text `s`
unfoldable pub tobase64 : Hasher → List ℕ → Option (List ℕ)
tobase64 h s = elim h.hs [ none ↦ some s | some t ↦ to_base64 t ]

-- tohex into the text `s`, which it leaves
unfoldable pub tohex : Hasher → List ℕ → List ℕ
tohex h s = s

-- tohex() and tobase64(), which begin with an empty text
unfoldable hash_hex : Hasher → List ℕ
unfolding tohex
hash_hex h = tohex h []

unfoldable hash_base64 : Hasher → Option (List ℕ)
unfolding tobase64
hash_base64 h = tobase64 h []

-- hash_len() of SHA-1: the size of its five words
abbrev hash_len : ℕ
hash_len = 20

-- hash_deleter: the memory that is given back, whose first `sz` bytes were the state
unfoldable wiped : ℕ → Buffer → Buffer
wiped sz mem = λ i. if ltb i sz then 0xec else mem i
