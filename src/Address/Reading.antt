-- ===== src/Address/Reading.antt =====
-- Reading an address back from its text.
use net_port.Common.{
  Bool-cases, ap, ◌⊎◌, ℕ, zero, suc, ◌+◌, ◌*◌, ◌/◌, ◌%◌, ◌≤◌, ◌<◌, ◌≡◌, ◌≢◌, ◌∙◌, refl, arith, List,
  [], ◌∷◌, ◌++◌, inl, inr, ltb,
}
use net_port.Buffer.{Buffer, set_byte}
use net_port.Address.Text.{ip4, ip4_loop, octet_text, put_digits, to_string, port_text, dot, colon}

-- `w` is the value after the digit `k`.
digit-step :
    (k : ℕ) (cs : List ℕ) (v w sect : ℕ) (aa : Buffer)
    → w ≡ v * 10 + k
    → k < 10
    → w < 256
    → sect < 4
    → ip4_loop ((48 + k) ∷ cs) v sect aa ≡ ip4_loop cs w sect aa
unfolding ip4_loop
digit-step k cs v w sect aa e digit small inside = ground arith

mark-step :
    (c : ℕ) (cs : List ℕ) (v sect : ℕ) (aa : Buffer)
    → sect < 4
    → (c < 48) ⊎ (57 < c)
    → ip4_loop (c ∷ cs) v sect aa ≡ ip4_loop cs 0 (sect + 1) (set_byte aa sect v)
unfolding ip4_loop
mark-step c cs v sect aa inside other = ground arith

put_digits-next :
    (room k : ℕ) (text : List ℕ)
    → k ≢ 0
    → put_digits (suc room) k text ≡ put_digits room (k / 10) ((48 + k % 10) ∷ text)
unfolding put_digits
put_digits-next room k text some_left = ground arith

put_digits-zero : (room : ℕ) (text : List ℕ) → put_digits room 0 text ≡ text
unfolding put_digits
put_digits-zero zero text = refl
put_digits-zero (suc room) text = refl

octet_one : (k : ℕ) → k < 10 → octet_text k ≡ (48 + k) ∷ []
unfolding octet_text put_digits
octet_one k small = ground arith

octet_two : (k : ℕ) → 10 ≤ k → k < 100 → octet_text k ≡ (48 + k / 10) ∷ (48 + k % 10) ∷ []
unfolding octet_text put_digits
octet_two k large small = ground arith

octet_three :
    (k : ℕ)
    → 100 ≤ k
    → k < 256
    → octet_text k ≡ (48 + k / 100) ∷ (48 + k / 10 % 10) ∷ (48 + k % 10) ∷ []
unfolding octet_text put_digits
octet_three k large small = ground arith

lt_or_ge : (a b : ℕ) → (a < b) ⊎ (b ≤ a)
lt_or_ge a b = elim (Bool-cases (ltb a b)) [
  | inl h ↦ inl (ground arith)
  | inr h ↦ inr (ground arith)
]

octet_text-read :
    (k : ℕ) (rest : List ℕ) (sect : ℕ) (aa : Buffer)
    → k < 256
    → sect < 4
    → ip4_loop (octet_text k ++ rest) 0 sect aa ≡ ip4_loop rest k sect aa
octet_text-read k rest sect aa small inside = elim (lt_or_ge k 10) [
  | inl one ↦ rw (octet_one k one) (digit-step k rest 0 k sect aa (omega arith) one small inside)
  | inr more ↦ elim (lt_or_ge k 100) [
    | inl two ↦ rw (octet_two k more two) (
        digit-step (k / 10) ((48 + k % 10) ∷ rest) 0 (k / 10) sect aa (omega arith) (omega arith)
          (omega arith) inside
        ∙ digit-step (k % 10) rest (k / 10) k sect aa (omega arith) (omega arith) small inside)
    | inr three ↦ rw (octet_three k three small) (
        digit-step (k / 100) ((48 + k / 10 % 10) ∷ (48 + k % 10) ∷ rest) 0 (k / 100) sect aa
          (omega arith) (omega arith) (omega arith) inside
        ∙ digit-step (k / 10 % 10) ((48 + k % 10) ∷ rest) (k / 100) (k / 10) sect aa (omega arith)
            (omega arith) (omega arith) inside
        ∙ digit-step (k % 10) rest (k / 10) k sect aa (omega arith) (omega arith) small inside)
  ]
]

section-read :
    (k c : ℕ) (rest : List ℕ) (sect : ℕ) (aa : Buffer)
    → k < 256
    → sect < 4
    → (c < 48) ⊎ (57 < c)
    → ip4_loop (octet_text k ++ (c ∷ rest)) 0 sect aa
      ≡ ip4_loop rest 0 (sect + 1) (set_byte aa sect k)
section-read k c rest sect aa small inside other =
    octet_text-read k (c ∷ rest) sect aa small inside ∙ mark-step c rest k sect aa inside other

done-read : (cs : List ℕ) (aa : Buffer) → ip4_loop cs 0 4 aa ≡ aa
unfolding ip4_loop
done-read [] aa = refl
done-read (c ∷ cs) aa = refl

-- An address whose octets are bytes is read back from its text, with whatever port behind it and
-- whatever the memory held: the four octets are those of the address.
pub ip4-to_string :
    (aa old : Buffer) (port i : ℕ)
    → ((j : ℕ) → j < 4 → aa j < 256)
    → i < 4
    → ip4 (to_string aa port) old i ≡ aa i
unfolding ip4 to_string
ip4-to_string aa old port i bytes inside =
    let after₃ = octet_text (aa 3) ++ (colon ∷ port_text port) in
    let after₂ = octet_text (aa 2) ++ (dot ∷ after₃) in
    let after₁ = octet_text (aa 1) ++ (dot ∷ after₂) in
    let old₁ = set_byte old 0 (aa 0) in
    let old₂ = set_byte old₁ 1 (aa 1) in
    let old₃ = set_byte old₂ 2 (aa 2) in
    ap (λ (b : Buffer). b i)
      (section-read (aa 0) dot after₁ 0 old (bytes 0 (omega arith)) (omega arith)
          (inl (omega arith))
        ∙ section-read (aa 1) dot after₂ 1 old₁ (bytes 1 (omega arith)) (omega arith)
            (inl (omega arith))
        ∙ section-read (aa 2) dot after₃ 2 old₂ (bytes 2 (omega arith)) (omega arith)
            (inl (omega arith))
        ∙ section-read (aa 3) colon (port_text port) 3 old₃ (bytes 3 (omega arith)) (omega arith)
            (inr (omega arith))
        ∙ done-read (port_text port) (set_byte old₃ 3 (aa 3)))
    ∙ ground arith
