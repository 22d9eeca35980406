-- ===== src/Hasher/Tests.antt =====
-- Hashes of two types.
use net_port.Common.{ℕ, ◌≡◌, refl, List, [], ◌∷◌, some}
use net_port.Buffer.{zeros}
use net_port.Sha1.{Sha1, first_hash}
use net_port.Sha1.Blocks.{concat}
use net_port.Hasher.{ha_md5, ha_sha1, new_hash, full, partial_begin, partial_finish, tobase64}
use net_port.Hasher.Parts.{add_parts, parts-full}

abbrev raw : Sha1
raw = record { hash = first_hash; len = 0; mc = zeros }

-- A type without a state leaves the text.
no_state : tobase64 (new_hash ha_md5 raw) (1 ∷ []) ≡ some (1 ∷ [])
unfolding tobase64 new_hash
no_state = refl

abbrev parts : List (List ℕ)
parts = (0x61 ∷ []) ∷ [] ∷ (0x62 ∷ 0x63 ∷ []) ∷ []

parts-full_example :
    partial_finish (add_parts parts (partial_begin (new_hash ha_sha1 raw)))
    ≡ full (concat parts) (new_hash ha_sha1 raw)
parts-full_example = parts-full parts (new_hash ha_sha1 raw)
