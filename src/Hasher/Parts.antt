-- ===== src/Hasher/Parts.antt =====
-- A message given in parts.
use net_port.Common.{ℕ, ◌≡◌, ◌∙◌, ap, sym, refl, List, [], ◌∷◌, Option, none, some}
use net_port.Sha1
use net_port.Sha1.{Sha1, add_message, init}
use net_port.Sha1.Blocks.{add_message-append, concat}
use net_port.Hasher.{Hasher, full, partial_begin, partial_add, partial_finish}

-- partial_add of one part after the other
unfoldable pub add_parts : List (List ℕ) → Hasher → Hasher
add_parts [] h = h
add_parts (m ∷ ms) h = add_parts ms (partial_add m h)

add_parts-concat :
    (ms : List (List ℕ)) (s : Sha1)
    → add_parts ms (record { hs = some s }) ≡ record { hs = some (add_message (concat ms) s) }
unfolding add_parts partial_add add_message
add_parts-concat [] s = refl
add_parts-concat (m ∷ ms) s =
    add_parts-concat ms (add_message m s)
    ∙ ap (λ (t : Sha1). record { hs = some t }) (sym (add_message-append m (concat ms) s))

add_parts-null : (ms : List (List ℕ)) → add_parts ms (record { hs = none }) ≡ record { hs = none }
unfolding add_parts partial_add
add_parts-null [] = refl
add_parts-null (m ∷ ms) = add_parts-null ms

-- On a hash of any type: the partial calls, with the message in parts of any number and length,
-- leave what Full leaves on the whole message.
pub parts-full :
    (ms : List (List ℕ)) (h : Hasher)
    → partial_finish (add_parts ms (partial_begin h)) ≡ full (concat ms) h
unfolding partial_finish partial_begin full Sha1.full
parts-full ms h = at h.hs
  where
    at :
        (o : Option Sha1)
        → partial_finish (add_parts ms (partial_begin (record { hs = o })))
          ≡ full (concat ms) (record { hs = o })
    at none = ap partial_finish (add_parts-null ms)
    at (some s) = ap partial_finish (add_parts-concat ms (init s))
