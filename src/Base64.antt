-- ===== src/Base64.antt =====
-- `base64l_be` and `Hash::tobase64` (src/crypt.cpp): the digest in base 64, from its words. `none`
-- is a read behind the words or a write behind the text.
pub mod Reference
pub mod Digest
mod Tests
use net_port.Common.{
  ◌||◌, ℕ, zero, suc, ◌+◌, ◌-◌, ◌*◌, ◌/◌, ◌%◌, ◌^◌, ◌≡◌, Bool, true, false, List, [], ◌∷◌, ◌++◌,
  Option, none, some, ◌>>=◌, ◌==◌, leb, if◌then◌else◌, length, get_or, u32, ◌<<◌, ◌>>◌, bit_and,
  bit_or,
}
use net_port.Sha1.{Sha1, digest}

-- The characters "A" to "Z", "a" to "z", "0" to "9", "+" and "/"
unfoldable pub radix64 : ℕ → ℕ
radix64 i =
    if leb i 25
    then 65 + i
    else if leb i 51
    then 71 + i
    else if leb i 61
    then i - 4
    else if i == 62
    then 43
    else 47

-- radix64[077 & x]
abbrev pub digit : ℕ → ℕ
digit x = radix64 (bit_and x 63)

-- '='
abbrev pub pad : ℕ
pad = 61

-- The next word, and four characters stored at the end of the text of `l` characters
abbrev pub next_word : List ℕ → Option (ℕ × List ℕ)
next_word [] = none
next_word (w ∷ ws) = some (w, ws)

abbrev pub emit : ℕ → List ℕ → List ℕ → Option (List ℕ)
emit l out four = if leb (length out + 4) l then some (out ++ four) else none

-- The loop body behind the third word `w`, the second and the first. `again` is the loop from its
-- top, and `n` the counter.
abbrev Loop : Type 0
Loop = List ℕ → ℕ → List ℕ → Option (List ℕ)

unfoldable pub after_third : Loop → ℕ → ℕ → List ℕ → ℕ → List ℕ → Option (List ℕ)
after_third again l w ws n out =
    emit l out (digit (w >> 18) ∷ digit (w >> 12) ∷ digit (w >> 6) ∷ digit w ∷ []) >>= λ out₁.
    if leb l (length out₁) || n == 0 then some out₁ else again ws (n - 1) out₁

abbrev pub third_chars : ℕ → ℕ → List ℕ
third_chars w v =
    digit (w >> 10)
    ∷ digit (w >> 4)
    ∷ digit (bit_or (u32 (w << 2)) (v >> 30))
    ∷ digit (v >> 24)
    ∷ []

unfoldable pub after_second : Loop → ℕ → ℕ → List ℕ → ℕ → List ℕ → Option (List ℕ)
unfolding after_third
after_second again l w ws n out =
    if n == 0
    then emit l out (digit (w >> 10) ∷ digit (w >> 4) ∷ digit (u32 (w << 2)) ∷ pad ∷ [])
    else (next_word ws >>= λ (v, vs). emit l out (third_chars w v) >>= λ out₁.
        if leb l (length out₁) then some out₁ else after_third again l v vs (n - 1) out₁)

abbrev pub second_chars : ℕ → ℕ → List ℕ
second_chars w v =
    digit (w >> 2)
    ∷ digit (bit_or (u32 (w << 4)) (v >> 28))
    ∷ digit (v >> 22)
    ∷ digit (v >> 16)
    ∷ []

unfoldable pub after_first : Loop → ℕ → ℕ → List ℕ → ℕ → List ℕ → Option (List ℕ)
unfolding after_second
after_first again l w ws n out =
    if n == 0
    then emit l out (digit (w >> 2) ∷ digit (u32 (w << 4)) ∷ pad ∷ pad ∷ [])
    else (next_word ws >>= λ (v, vs). emit l out (second_chars w v) >>= λ out₁.
        if leb l (length out₁) then some out₁ else after_second again l v vs (n - 1) out₁)

abbrev pub first_chars : ℕ → List ℕ
first_chars w = radix64 (w >> 26) ∷ digit (w >> 20) ∷ digit (w >> 14) ∷ digit (w >> 8) ∷ []

-- The loop with at most `fuel` rounds; `none` also if they run out.
unfoldable pub base64_loop : ℕ → ℕ → Loop
unfolding after_first
base64_loop zero l ws n out = none
base64_loop (suc fuel) l ws n out = elim (n == 0) [
  | true ↦ some out
  | false ↦ next_word ws >>= λ (w, vs). emit l out (first_chars w) >>= λ out₁.
      if leb l (length out₁)
      then some out₁
      else after_first (base64_loop fuel l) l w vs (n - 1) out₁
]

-- base64l_be, with a round for each word; n is one more than the number of words.
unfoldable pub base64l_be : List ℕ → ℕ → Option (List ℕ)
unfolding base64_loop
base64l_be ws l =
    if length ws == 0 || l == 0
    then some []
    else base64_loop (suc (length ws)) l ws (length ws + 1) []

-- The length of the text for a digest of `sz` bytes
unfoldable pub text_length : ℕ → ℕ
text_length sz = let ex = sz * 4 % 3 in if ex == 0 then sz * 4 / 3 else sz * 4 / 3 + (4 - ex)

-- tobase64 of a state
unfoldable pub to_base64 : Sha1 → Option (List ℕ)
unfolding base64l_be text_length
to_base64 s = base64l_be (digest s) (text_length 20)
