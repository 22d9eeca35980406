-- ===== src/Address/Order.antt =====
-- What operator< of an address tells apart.
use net_port.Common.{◌≡◌, ◌↔◌, arith, false}
use net_port.Address.{NetworkAddress, neta_ip4, word_at, word_lt, lt}

-- Both are IPv4 addresses of one socket type and protocol.
pub record AreAlike (a b : NetworkAddress) : Type 0 where
  pub left_ip4 : a.af ≡ neta_ip4
  pub right_ip4 : b.af ≡ neta_ip4
  pub same_type : a.type ≡ b.type
  pub same_proto : a.proto ≡ b.proto

lt-ip4 : (a b : NetworkAddress) → AreAlike a b → lt a b ≡ word_lt a b 0
unfolding lt
lt-ip4 a b v = ground (arith, v.left_ip4, v.right_ip4, v.same_type, v.same_proto)

lt-ip4_flipped : (a b : NetworkAddress) → AreAlike a b → lt b a ≡ word_lt b a 0
unfolding lt
lt-ip4_flipped a b v = ground (arith, v.left_ip4, v.right_ip4, v.same_type, v.same_proto)

-- Of two IPv4 addresses of one type and protocol neither is before the other exactly if the first
-- four bytes of their data agree: the port and the first two octets decide, and nothing else.
pub lt-equivalent_iff :
    (a b : NetworkAddress)
    → AreAlike a b
    → ((lt a b ≡ false) × (lt b a ≡ false)) ↔ (word_at a 0 ≡ word_at b 0)
lt-equivalent_iff a b v =
    let left = lt-ip4 a b v in
    let right = lt-ip4_flipped a b v in
    (
      λ e. ground (arith, left, right, e.0, e.1),
      λ e. (ground (arith, left, e), ground (arith, right, e)),
    )
