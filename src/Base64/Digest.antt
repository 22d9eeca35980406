-- ===== src/Base64/Digest.antt =====
-- The text of a digest is the base 64 of its bytes.
use net_port.Sha1.Padding.{full-returns}
use net_port.Buffer.{set_byte}
use net_port.Sha1.{
  rounds, compress, pad_loop, block_update, full, finish, end_message, Sha1, digest,
}
use net_port.Common.{
  none, sym, u64, All, ℕ, ◌+◌, ◌*◌, ◌/◌, ◌%◌, ◌^◌, ◌<◌, ◌≡◌, ◌∙◌, refl, ap, ap₂, List, [], ◌∷◌,
  ◌++◌, Option, some, map, arith, u32, ◌<<◌, ◌>>◌, bit_and, bit_or, bit_and-low_mask, bit_or-fields,
  length,
}
use net_port.Base64.{to_base64, radix64, pad}
use net_port.Base64.Reference.{alphabet, encode, word_bytes}

join_two :
    (w v : ℕ) → v < 2 ^ 32 → bit_and (bit_or (u32 (w << 4)) (v >> 28)) 63 ≡ w % 4 * 16 + v / 2 ^ 28
join_two w v h = omega (
  arith,
  bit_and-low_mask 6 (bit_or (u32 (w << 4)) (v >> 28)),
  bit_or-fields 4 (w % 2 ^ 28) (v / 2 ^ 28),
  ap (λ (x : ℕ). bit_or x (v / 2 ^ 28)) (shifted w),
)
  where
    shifted : (w : ℕ) → u32 (w << 4) ≡ w % 2 ^ 28 * 2 ^ 4
    shifted w = omega arith

join_four :
    (w v : ℕ) → v < 2 ^ 32 → bit_and (bit_or (u32 (w << 2)) (v >> 30)) 63 ≡ w % 16 * 4 + v / 2 ^ 30
join_four w v h = omega (
  arith,
  bit_and-low_mask 6 (bit_or (u32 (w << 2)) (v >> 30)),
  bit_or-fields 2 (w % 2 ^ 30) (v / 2 ^ 30),
  ap (λ (x : ℕ). bit_or x (v / 2 ^ 30)) (shifted w),
)
  where
    shifted : (w : ℕ) → u32 (w << 2) ≡ w % 2 ^ 30 * 2 ^ 2
    shifted w = omega arith

-- Lists are the same entry by entry.
abbrev Same : List ℕ → List ℕ → Type 0
Same [] [] = Unit
Same (x ∷ xs) (y ∷ ys) = (x ≡ y) × Same xs ys
Same _ _ = ⊥

radix64-alphabet : (v : ℕ) → radix64 v ≡ alphabet v
unfolding radix64 alphabet
radix64-alphabet v = ground arith

radix64-Same : (xs ys rest : List ℕ) → Same xs ys → map radix64 xs ++ rest ≡ map alphabet ys ++ rest
radix64-Same [] [] rest h = refl
radix64-Same [] (y ∷ ys) rest h = elim h [ ]
radix64-Same (x ∷ xs) [] rest h = elim h [ ]
radix64-Same (x ∷ xs) (y ∷ ys) rest (e, h) =
    ap₂ ◌∷◌ (ap radix64 e ∙ radix64-alphabet y) (radix64-Same xs ys rest h)

-- The sixteen digits of three words, as the loop and as the reference have them.
abbrev three_digits : ℕ → ℕ → ℕ → List ℕ
three_digits a b c =
    (a >> 26)
    ∷ bit_and (a >> 20) 63
    ∷ bit_and (a >> 14) 63
    ∷ bit_and (a >> 8) 63
    ∷ bit_and (a >> 2) 63
    ∷ bit_and (bit_or (u32 (a << 4)) (b >> 28)) 63
    ∷ bit_and (b >> 22) 63
    ∷ bit_and (b >> 16) 63
    ∷ bit_and (b >> 10) 63
    ∷ bit_and (b >> 4) 63
    ∷ bit_and (bit_or (u32 (b << 2)) (c >> 30)) 63
    ∷ bit_and (c >> 24) 63
    ∷ bit_and (c >> 18) 63
    ∷ bit_and (c >> 12) 63
    ∷ bit_and (c >> 6) 63
    ∷ bit_and c 63
    ∷ []

abbrev three_of_bytes : ℕ → ℕ → ℕ → List ℕ
three_of_bytes a b c =
    (a / 2 ^ 24 / 4)
    ∷ (a / 2 ^ 24 % 4 * 16 + a / 2 ^ 16 % 256 / 16)
    ∷ (a / 2 ^ 16 % 256 % 16 * 4 + a / 2 ^ 8 % 256 / 64)
    ∷ (a / 2 ^ 8 % 256 % 64)
    ∷ (a % 256 / 4)
    ∷ (a % 256 % 4 * 16 + b / 2 ^ 24 / 16)
    ∷ (b / 2 ^ 24 % 16 * 4 + b / 2 ^ 16 % 256 / 64)
    ∷ (b / 2 ^ 16 % 256 % 64)
    ∷ (b / 2 ^ 8 % 256 / 4)
    ∷ (b / 2 ^ 8 % 256 % 4 * 16 + b % 256 / 16)
    ∷ (b % 256 % 16 * 4 + c / 2 ^ 24 / 64)
    ∷ (c / 2 ^ 24 % 64)
    ∷ (c / 2 ^ 16 % 256 / 4)
    ∷ (c / 2 ^ 16 % 256 % 4 * 16 + c / 2 ^ 8 % 256 / 16)
    ∷ (c / 2 ^ 8 % 256 % 16 * 4 + c % 256 / 64)
    ∷ (c % 256 % 64)
    ∷ []

three_words :
    (a b c : ℕ)
    → a < 2 ^ 32
    → b < 2 ^ 32
    → c < 2 ^ 32
    → Same (three_digits a b c) (three_of_bytes a b c)
three_words a b c ha hb hc = (
  omega arith,
  (
    omega (arith, bit_and-low_mask 6 (a >> 20)),
    (
      omega (arith, bit_and-low_mask 6 (a >> 14)),
      (
        omega (arith, bit_and-low_mask 6 (a >> 8)),
        (
          omega (arith, bit_and-low_mask 6 (a >> 2)),
          (
            omega (arith, join_two a b),
            (
              omega (arith, bit_and-low_mask 6 (b >> 22)),
              (
                omega (arith, bit_and-low_mask 6 (b >> 16)),
                (
                  omega (arith, bit_and-low_mask 6 (b >> 10)),
                  (
                    omega (arith, bit_and-low_mask 6 (b >> 4)),
                    (
                      omega (arith, join_four b c),
                      (
                        omega (arith, bit_and-low_mask 6 (c >> 24)),
                        (
                          omega (arith, bit_and-low_mask 6 (c >> 18)),
                          (
                            omega (arith, bit_and-low_mask 6 (c >> 12)),
                            (
                              omega (arith, bit_and-low_mask 6 (c >> 6)),
                              (omega (arith, bit_and-low_mask 6 c), tt),
                            ),
                          ),
                        ),
                      ),
                    ),
                  ),
                ),
              ),
            ),
          ),
        ),
      ),
    ),
  ),
)

-- The eleven digits of the last two words.
abbrev two_digits : ℕ → ℕ → List ℕ
two_digits d e =
    (d >> 26)
    ∷ bit_and (d >> 20) 63
    ∷ bit_and (d >> 14) 63
    ∷ bit_and (d >> 8) 63
    ∷ bit_and (d >> 2) 63
    ∷ bit_and (bit_or (u32 (d << 4)) (e >> 28)) 63
    ∷ bit_and (e >> 22) 63
    ∷ bit_and (e >> 16) 63
    ∷ bit_and (e >> 10) 63
    ∷ bit_and (e >> 4) 63
    ∷ bit_and (u32 (e << 2)) 63
    ∷ []

abbrev two_of_bytes : ℕ → ℕ → List ℕ
two_of_bytes d e =
    (d / 2 ^ 24 / 4)
    ∷ (d / 2 ^ 24 % 4 * 16 + d / 2 ^ 16 % 256 / 16)
    ∷ (d / 2 ^ 16 % 256 % 16 * 4 + d / 2 ^ 8 % 256 / 64)
    ∷ (d / 2 ^ 8 % 256 % 64)
    ∷ (d % 256 / 4)
    ∷ (d % 256 % 4 * 16 + e / 2 ^ 24 / 16)
    ∷ (e / 2 ^ 24 % 16 * 4 + e / 2 ^ 16 % 256 / 64)
    ∷ (e / 2 ^ 16 % 256 % 64)
    ∷ (e / 2 ^ 8 % 256 / 4)
    ∷ (e / 2 ^ 8 % 256 % 4 * 16 + e % 256 / 16)
    ∷ (e % 256 % 16 * 4)
    ∷ []

two_words : (d e : ℕ) → d < 2 ^ 32 → e < 2 ^ 32 → Same (two_digits d e) (two_of_bytes d e)
two_words d e hd he = (
  omega arith,
  (
    omega (arith, bit_and-low_mask 6 (d >> 20)),
    (
      omega (arith, bit_and-low_mask 6 (d >> 14)),
      (
        omega (arith, bit_and-low_mask 6 (d >> 8)),
        (
          omega (arith, bit_and-low_mask 6 (d >> 2)),
          (
            omega (arith, join_two d e),
            (
              omega (arith, bit_and-low_mask 6 (e >> 22)),
              (
                omega (arith, bit_and-low_mask 6 (e >> 16)),
                (
                  omega (arith, bit_and-low_mask 6 (e >> 10)),
                  (
                    omega (arith, bit_and-low_mask 6 (e >> 4)),
                    (omega (arith, bit_and-low_mask 6 (u32 (e << 2))), tt),
                  ),
                ),
              ),
            ),
          ),
        ),
      ),
    ),
  ),
)

to_base64-digest :
    (s : Sha1)
    → All (λ w. w < 2 ^ 32) (digest s)
    → to_base64 s ≡ some (encode (word_bytes (digest s)))
unfolding to_base64 encode
to_base64-digest s (ha, (hb, (hc, (hd, (he, _))))) =
    let h = s.hash in
    let last : map radix64 (two_digits h.d h.e) ++ pad ∷ []
        ≡ map alphabet (two_of_bytes h.d h.e) ++ pad ∷ [] =
      radix64-Same (two_digits h.d h.e) (two_of_bytes h.d h.e) (pad ∷ [])
        (two_words h.d h.e hd he) in
    ap some (
      radix64-Same (three_digits h.a h.b h.c) (three_of_bytes h.a h.b h.c) _
        (three_words h.a h.b h.c ha hb hc)
      ∙ ap (λ (t : List ℕ). map alphabet (three_of_bytes h.a h.b h.c) ++ t) last)

finish-Fits : (s : Sha1) → All (λ w. w < 2 ^ 32) (digest (finish s))
unfolding finish block_update compress rounds
finish-Fits s = (omega arith, (omega arith, (omega arith, (omega arith, (omega arith, tt)))))

end_message-Fits : (s t : Sha1) → end_message s ≡ some t → All (λ w. w < 2 ^ 32) (digest t)
unfolding end_message
end_message-Fits s t =
    ended
      (pad_loop 64 (u64 (s.len + 1)) (record s { mc = set_byte s.mc (bit_and s.len 0x3f) 0x80 }))
  where
    ended :
        (o : Option Sha1)
        → elim o [ none ↦ none | some u ↦ some (finish u) ] ≡ some t
        → All (λ w. w < 2 ^ 32) (digest t)
    ended none h = absurd cc
    ended (some u) h = let same : finish u ≡ t = cc in rw (sym same) (finish-Fits u)

-- For a message of less than 2 ^ 61 bytes, Full returns, and the text of the digest is then written
-- without a read behind the words or a write behind the text: it is the base 64 of RFC 4648 of the
-- digest's twenty bytes, the highest byte of each word first.
pub to_base64-encode :
    (m : List ℕ) (s : Sha1)
    → length m < 2 ^ 61
    → (t : Sha1) × (full m s ≡ some t) × (to_base64 t ≡ some (encode (word_bytes (digest t))))
unfolding full
to_base64-encode m s short =
    let (t, runs) = full-returns m s short in
    (t, runs, to_base64-digest t (end_message-Fits _ t runs))
