-- ===== src/Base64/Tests.antt =====
-- Texts of small inputs.
use net_port.Common.{ℕ, ◌≡◌, refl, List, [], ◌∷◌, none, some, arith}
use net_port.Base64.{base64l_be, radix64, text_length, to_base64}
use net_port.Base64.Digest.{to_base64-encode}
use net_port.Sha1.{Sha1, full, digest, first_hash}
use net_port.Buffer.{zeros}
use net_port.Base64.Reference.{alphabet, encode, word_bytes}

abbrev words : List ℕ
words = 0xa9993e36 ∷ 0x4706816a ∷ 0xba3e2571 ∷ 0x7850c26c ∷ 0x9cd0d89d ∷ []

digest_text : base64l_be words (text_length 20) ≡ some (encode (word_bytes words))
unfolding base64l_be radix64 text_length encode alphabet
digest_text = refl

-- One word: the loop reads a second.
one_word : base64l_be (5 ∷ []) 8 ≡ none
unfolding base64l_be radix64
one_word = refl

abbrev no_state : Sha1
no_state = record { hash = first_hash; len = 0; mc = zeros }

to_base64-encode_example :
    (t : Sha1) × (full (0x61 ∷ 0x62 ∷ 0x63 ∷ []) no_state ≡ some t)
    × (to_base64 t ≡ some (encode (word_bytes (digest t))))
to_base64-encode_example = to_base64-encode (0x61 ∷ 0x62 ∷ 0x63 ∷ []) no_state (omega arith)
