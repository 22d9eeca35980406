-- ===== src/Address/Members/Texts.antt =====
-- An IPv4 address and its text.
use net_port.Common.{ℕ, ◌+◌, ◌<◌, ◌≡◌, ◌∙◌, refl, arith}
use net_port.Buffer.{Buffer}
use net_port.Address.{NetworkAddress, neta_ip4}
use net_port.Address.Text
use net_port.Address.Text.{ip4}
use net_port.Address.Reading.{ip4-to_string}
use net_port.Address.Members.{port_of, octets_of, ip4_string, to_string}

text-ext :
    (aa bb : Buffer) (p q : ℕ)
    → ((i : ℕ) → i < 4 → aa i ≡ bb i)
    → p ≡ q
    → Text.to_string aa p ≡ Text.to_string bb q
unfolding Text.to_string
text-ext aa bb p q same port =
    rw
      (same 0 (omega arith), same 1 (omega arith), same 2 (omega arith), same 3 (omega arith), port)
      refl

to_string-octets :
    (a : NetworkAddress) → a.af ≡ neta_ip4 → to_string a ≡ Text.to_string (octets_of a) (port_of a)
unfolding to_string
to_string-octets a four = rw four refl

module _ (a b : NetworkAddress) (raw : Buffer) (four : a.af ≡ neta_ip4)
    (bytes : (i : ℕ) → i < 6 → a.sa_data i < 256) where
  abbrev copy : NetworkAddress
  copy = ip4_string raw (Text.to_string (octets_of a) (port_of a)) (port_of a) b

  octet-read : (i : ℕ) → i < 4 → octets_of copy i ≡ octets_of a i
  unfolding ip4_string
  octet-read i inside =
      let given = λ (k : ℕ) (h : k < 4). bytes (2 + k) (omega arith) in
      ground (arith, ip4-to_string (octets_of a) raw (port_of a) i given inside)

  port-read : port_of copy ≡ port_of a
  unfolding ip4_string
  port-read = ground (arith, bytes 0 (omega arith), bytes 1 (omega arith))

-- An IPv4 address of bytes, whatever the memory held: ip4 on its text and its port, on any address,
-- gives an IPv4 address with the same octets, the same port and the same text.
pub ip4_string-to_string :
    (a b : NetworkAddress) (raw : Buffer)
    → a.af ≡ neta_ip4
    → ((i : ℕ) → i < 6 → a.sa_data i < 256)
    → let c = ip4_string raw (to_string a) (port_of a) b in
      (c.af ≡ neta_ip4)
      × ((i : ℕ) → i < 4 → octets_of c i ≡ octets_of a i)
      × (port_of c ≡ port_of a)
      × (to_string c ≡ to_string a)
ip4_string-to_string a b raw four bytes =
    let c = copy a b raw four bytes in
    let octets = octet-read a b raw four bytes in
    let port = port-read a b raw four bytes in
    let kind : c.af ≡ neta_ip4 = unfold ip4_string in refl in
    rw (to_string-octets a four) (
      kind,
      octets,
      port,
      to_string-octets c kind ∙ text-ext (octets_of c) (octets_of a) _ _ octets port,
    )
