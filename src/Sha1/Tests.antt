-- ===== src/Sha1/Tests.antt =====
-- Digests of known messages.
use net_port.Common.{ℕ, ◌≡◌, refl, List, [], ◌∷◌, Option, none, some, arith, length, ◌++◌}
use net_port.Buffer.{zeros}
use net_port.Sha1.Blocks.{absorb}
use net_port.Sha1.Padding.{padding, full-absorb}
use net_port.Sha1.{
  init, add_message, add_byte, block_update, compress, schedule, load_words, extend_words, rounds,
  turns, end_message, pad_loop, finish, Sha1, first_hash, full, digest,
}

abbrev started : Sha1
started = record { hash = first_hash; len = 0; mc = zeros }

abbrev digest_of : Option Sha1 → List ℕ
digest_of none = []
digest_of (some s) = digest s

-- The digest of "abc" in FIPS 180.
digest_abc :
    digest_of (full (0x61 ∷ 0x62 ∷ 0x63 ∷ []) started)
    ≡ 0xa9993e36 ∷ 0x4706816a ∷ 0xba3e2571 ∷ 0x7850c26c ∷ 0x9cd0d89d ∷ []
unfolding full init add_message add_byte block_update compress schedule load_words extend_words
    rounds turns end_message pad_loop finish
digest_abc = refl

abbrev abc : List ℕ
abc = 0x61 ∷ 0x62 ∷ 0x63 ∷ []

full-absorb_example :
    (t : Sha1) × (full abc started ≡ some t)
    × (t.hash ≡ absorb first_hash ((abc ++ padding (length abc)) ∷ []))
full-absorb_example =
    full-absorb abc ((abc ++ padding (length abc)) ∷ []) started (omega arith) (refl, tt) refl
