-- ===== src/Address/Six/Groups.antt =====
-- Reading eight hexadecimal groups.
use native.Mathlib.Nat.{pow-suc, pow-zero}
use net_port.Common.{
  if-cases, ℕ, zero, suc, ◌+◌, ◌*◌, ◌/◌, ◌%◌, ◌^◌, ◌<◌, ◌≡◌, ◌≢◌, ◌∙◌, refl, ap, arith, List, [],
  ◌∷◌, ◌++◌, ◌==◌, Option, some, none, Bool-cases, inl, inr,
}
use net_port.Buffer.{Buffer, set_byte}
use net_port.Address.Itoan.{radix_lookup, itoan_loop}
use net_port.Address.Itoan.Value.{itoan_loop-zero, itoan_loop-next}
use net_port.Address.Text.{colon, number_text, port_text}
use net_port.Address.Six.{
  Reader, ip6_loop, read_char, hex_value, end_section, ip6, hex_text, groups_text, to_string,
  finish_words, Reading, invalid, overrun, words,
}

-- The loop in the section `sect`, before an expansion
abbrev at : ℕ → ℕ → ℕ → Buffer → Reader
at sect ltype ipev aa6 = record { sect = sect; xpand = 0; ltype = ltype; ipev = ipev; aa6 = aa6 }

hex_value-radix_lookup : (k : ℕ) → k < 16 → hex_value (radix_lookup k) ≡ some k
unfolding hex_value radix_lookup
hex_value-radix_lookup k small = ground arith

digit-step :
    (k v sect ltype w : ℕ) (cs : List ℕ) (aa6 : Buffer)
    → k < 16
    → sect < 8
    → w ≡ v * 16 + k
    → w < 2 ^ 16
    → ip6_loop (radix_lookup k ∷ cs) (at sect ltype v aa6) ≡ ip6_loop cs (at sect 1 w aa6)
unfolding ip6_loop read_char
digit-step k v sect ltype w cs aa6 digit inside e small =
    ground (arith, hex_value-radix_lookup k digit)

colon-step :
    (w sect : ℕ) (cs : List ℕ) (aa6 : Buffer)
    → sect < 8
    → ip6_loop (colon ∷ cs) (at sect 1 w aa6)
      ≡ ip6_loop cs (at (sect + 1) 2 0 (set_byte aa6 sect w))
unfolding ip6_loop read_char end_section hex_value
colon-step w sect cs aa6 inside = ground arith

-- The digits of a number that is not zero are read as the number.
digits-read :
    (room w sect ltype : ℕ) (digits cs : List ℕ) (aa6 : Buffer)
    → w ≢ 0
    → w < 16 ^ room
    → w < 2 ^ 16
    → sect < 8
    → ip6_loop (itoan_loop 16 room w digits ++ cs) (at sect ltype 0 aa6)
      ≡ ip6_loop (digits ++ cs) (at sect 1 w aa6)
digits-read zero w sect ltype digits cs aa6 more fits small inside =
    absurd (omega (arith, pow-zero 16))
digits-read (suc room) w sect ltype digits cs aa6 more fits small inside =
    let q = w / 16 in
    let d = radix_lookup (w % 16) in
    let next =
      ap (λ (ds : List ℕ). ip6_loop (ds ++ cs) (at sect ltype 0 aa6))
        (itoan_loop-next 16 room w digits (ground arith)) in
    elim (Bool-cases (q == 0)) [
      | inl e ↦
          let last : q ≡ 0 = ground arith in
          next
          ∙ ap (λ (ds : List ℕ). ip6_loop (ds ++ cs) (at sect ltype 0 aa6))
              (ap (λ (k : ℕ). itoan_loop 16 room k (d ∷ digits)) last
                ∙ itoan_loop-zero 16 room (d ∷ digits))
          ∙ digit-step (w % 16) 0 sect ltype w (digits ++ cs) aa6 (omega arith) inside
              (omega (arith, last)) small
      | inr e ↦
          let other : q ≢ 0 = λ z. ground arith in
          next
          ∙ digits-read room q sect ltype (d ∷ digits) cs aa6 other (omega (arith, pow-suc 16 room))
              (omega arith) inside
          ∙ digit-step (w % 16) q sect 1 w (digits ++ cs) aa6 (omega arith) inside (omega arith)
              small
    ]

hex_text-read :
    (w sect ltype : ℕ) (cs : List ℕ) (aa6 : Buffer)
    → w < 2 ^ 16
    → sect < 8
    → ip6_loop (hex_text w ++ cs) (at sect ltype 0 aa6) ≡ ip6_loop cs (at sect 1 w aa6)
unfolding number_text radix_lookup
hex_text-read w sect ltype cs aa6 small inside =
    if-cases
      (λ (ds : List ℕ). ip6_loop (ds ++ cs) (at sect ltype 0 aa6) ≡ ip6_loop cs (at sect 1 w aa6))
      (w == 0) (48 ∷ []) (itoan_loop 16 9 w [])
      (λ e.
        let none_left : 0 ≡ w = ground arith in
        digit-step 0 0 sect ltype 0 cs aa6 (omega arith) inside refl (omega arith)
        ∙ ap (λ (k : ℕ). ip6_loop cs (at sect 1 k aa6)) none_left)
      (λ e. digits-read 9 w sect ltype [] cs aa6 (λ z. ground arith) (omega arith) small inside)

group-read :
    (w sect ltype : ℕ) (cs : List ℕ) (aa6 : Buffer)
    → w < 2 ^ 16
    → sect < 8
    → ip6_loop (hex_text w ++ (colon ∷ cs)) (at sect ltype 0 aa6)
      ≡ ip6_loop cs (at (sect + 1) 2 0 (set_byte aa6 sect w))
group-read w sect ltype cs aa6 small inside =
    hex_text-read w sect ltype (colon ∷ cs) aa6 small inside ∙ colon-step w sect cs aa6 inside

-- What the eight groups leave in the section before the last is stored.
abbrev seven : Buffer → Buffer → Buffer
seven aa6 old =
    set_byte
      (set_byte
        (set_byte
          (set_byte (set_byte (set_byte (set_byte old 0 (aa6 0)) 1 (aa6 1)) 2 (aa6 2)) 3 (aa6 3)) 4
          (aa6 4))
        5 (aa6 5))
      6 (aa6 6)

groups-read :
    (aa6 old : Buffer) (ltype : ℕ) (rest : List ℕ)
    → ((i : ℕ) → i < 8 → aa6 i < 2 ^ 16)
    → ip6_loop (groups_text aa6 rest) (at 0 ltype 0 old)
      ≡ ip6_loop rest (at 7 1 (aa6 7) (seven aa6 old))
groups-read aa6 old ltype rest small =
    group-read (aa6 0) 0 ltype _ old (small 0 (omega arith)) (omega arith)
    ∙ group-read (aa6 1) 1 2 _ _ (small 1 (omega arith)) (omega arith)
    ∙ group-read (aa6 2) 2 2 _ _ (small 2 (omega arith)) (omega arith)
    ∙ group-read (aa6 3) 3 2 _ _ (small 3 (omega arith)) (omega arith)
    ∙ group-read (aa6 4) 4 2 _ _ (small 4 (omega arith)) (omega arith)
    ∙ group-read (aa6 5) 5 2 _ _ (small 5 (omega arith)) (omega arith)
    ∙ group-read (aa6 6) 6 2 _ _ (small 6 (omega arith)) (omega arith)
    ∙ hex_text-read (aa6 7) 7 2 rest _ (small 7 (omega arith)) (omega arith)

-- Behind eight sections the loop stops.
eight-read :
    (cs : List ℕ) (ltype w : ℕ) (aa6 : Buffer)
    → ip6_loop cs (at 8 ltype w aa6) ≡ some (at 8 ltype w aa6)
unfolding ip6_loop
eight-read [] ltype w aa6 = refl
eight-read (c ∷ cs) ltype w aa6 = refl

abbrev ended : Option Reader → Reading
ended o = elim o [ none ↦ invalid | some r ↦ finish_words r ]

-- The eight words of an address, each of 16 bits, are read back from their hexadecimal text with a
-- colon between each two, whatever the memory held. From the text that to_string gives, with its
-- brackets and the port, they are not: ip6 takes the colon before the port for the end of a
-- section, and stores a ninth word behind the eight.
pub ip6-to_string :
    (aa6 old : Buffer) (port : ℕ)
    → ((i : ℕ) → i < 8 → aa6 i < 2 ^ 16)
    → ((b : Buffer) × (ip6 (groups_text aa6 []) old ≡ words b) × ((i : ℕ) → i < 8 → b i ≡ aa6 i))
      × (ip6 (to_string aa6 port) old ≡ overrun)
unfolding ip6 ip6_loop to_string finish_words read_char end_section hex_value
ip6-to_string aa6 old port small = (
  (
    set_byte (seven aa6 old) 7 (aa6 7),
    ap ended (groups-read aa6 old 0 [] small),
    λ i inside. ground arith,
  ),
  ap ended (
      groups-read aa6 old 0 (93 ∷ colon ∷ port_text port) small
      ∙ eight-read (port_text port) 2 0 (set_byte (seven aa6 old) 7 (aa6 7))),
)
