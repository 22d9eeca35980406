-- ===== src/Address/Itoan/Value.antt =====
-- The text that `n_itoan` writes is the value in the radix.
use native.Mathlib.Nat.{div-add-mod', mod-lt, div-lt_iff_lt-mul, pow-suc, pow-zero}
use net_port.Common.{
  Bool-cases, inl, inr, ℕ, zero, suc, ◌+◌, ◌-◌, ◌*◌, ◌/◌, ◌%◌, ◌^◌, ◌≤◌, ◌<◌, ◌≡◌, ◌∙◌, refl, sym,
  ap, arith, false, List, [], ◌∷◌, ◌==◌, ltb, if◌then◌else◌, length, ℤ, pos, negsuc,
}
use net_port.Address.Itoan.{radix_lookup, itoan_loop, n_itoan, in_buffer}

-- The value of a character of RadixLookup.
unfoldable pub digit_value : ℕ → ℕ
digit_value c =
    if c == 47
    then 62
    else if c == 61
    then 63
    else if ltb c 58
    then c - 48
    else if ltb c 91
    then c - 29
    else c - 87

-- A text read from the left in a radix, behind what was read before.
unfoldable pub read_digits : ℕ → ℕ → List ℕ → ℕ
read_digits radix v [] = v
read_digits radix v (c ∷ cs) = read_digits radix (v * radix + digit_value c) cs

digit_value-radix_lookup : (k : ℕ) → k < 64 → digit_value (radix_lookup k) ≡ k
unfolding digit_value radix_lookup
digit_value-radix_lookup k small = ground arith

pub itoan_loop-zero : (radix room : ℕ) (digits : List ℕ) → itoan_loop radix room 0 digits ≡ digits
unfolding itoan_loop
itoan_loop-zero radix zero digits = refl
itoan_loop-zero radix (suc room) digits = refl

pub itoan_loop-next :
    (radix room v : ℕ) (digits : List ℕ)
    → (v == 0) ≡ false
    → itoan_loop radix (suc room) v digits
      ≡ itoan_loop radix room (v / radix) (radix_lookup (v % radix) ∷ digits)
unfolding itoan_loop
itoan_loop-next radix room v digits e = rw (e, itoan_loop) refl

-- The digits written are read as the value.
itoan_loop-read :
    (radix room v : ℕ) (digits : List ℕ)
    → 0 < radix
    → radix ≤ 64
    → v < radix ^ room
    → read_digits radix 0 (itoan_loop radix room v digits) ≡ read_digits radix v digits
unfolding read_digits
itoan_loop-read radix zero v digits large small fits =
    let none_left : v ≡ 0 = omega (arith, pow-zero radix) in
    rw none_left (ap (read_digits radix 0) (itoan_loop-zero radix 0 digits))
itoan_loop-read radix (suc room) v digits large small fits = elim (Bool-cases (v == 0)) [
  | inl e ↦
      let none_left : v ≡ 0 = ground arith in
      rw none_left (ap (read_digits radix 0) (itoan_loop-zero radix (suc room) digits))
  | inr e ↦
      let q = v / radix in
      let r = v % radix in
      let inside : r < radix = mod-lt v large in
      let less : q < radix ^ room =
        (div-lt_iff_lt-mul large).1 (rw (sym (pow-suc radix room)) fits) in
      ap (read_digits radix 0) (itoan_loop-next radix room v digits e)
      ∙ itoan_loop-read radix room q (radix_lookup r ∷ digits) large small less
      ∙ ap (λ (k : ℕ). read_digits radix (q * radix + k) digits)
          (digit_value-radix_lookup r (omega arith))
      ∙ ap (λ (k : ℕ). read_digits radix k digits) (div-add-mod' v radix)
]

itoan_loop-length :
    (radix room v : ℕ) (digits : List ℕ)
    → length (itoan_loop radix room v digits) ≤ room + length digits
unfolding itoan_loop
itoan_loop-length radix zero v digits = omega arith
itoan_loop-length radix (suc room) v digits =
    let more = itoan_loop-length radix room (v / radix) (radix_lookup (v % radix) ∷ digits) in
    ground (arith, more)

-- The text without its sign.
abbrev pub magnitude : ℤ → ℕ
magnitude (pos n) = n
magnitude (negsuc n) = n + 1

abbrev pub signed_text : ℤ → List ℕ → List ℕ
signed_text (pos n) digits = digits
signed_text (negsuc n) digits = 45 ∷ digits

-- The bytes that are left for digits.
abbrev pub digit_room : ℤ → ℕ → ℕ
digit_room (pos n) bufn = bufn - 1
digit_room (negsuc n) bufn = bufn - 2

-- An int above the least one, in a radix from 1 to 64 and a buffer of two bytes or more, is written
-- as its sign and its digits. The text and its zero byte fit into the buffer, and if the digits
-- have room, they are read as the value of the int.
pub n_itoan-read :
    (v : ℤ) (bufn radix : ℕ)
    → 2 ≤ bufn
    → 0 < radix
    → radix ≤ 64
    → magnitude v < 2 ^ 31
    → (digits : List ℕ) × (n_itoan v bufn radix ≡ in_buffer (signed_text v digits))
      × (length (signed_text v digits) < bufn)
      × (magnitude v < radix ^ digit_room v bufn → read_digits radix 0 digits ≡ magnitude v)
unfolding n_itoan read_digits digit_value
n_itoan-read (pos n) bufn radix room large small fits =
    let digits = if n == 0 then 48 ∷ [] else itoan_loop radix (bufn - 1) n [] in
    (
      digits,
      ground arith,
      ground (arith, itoan_loop-length radix (bufn - 1) n []),
      λ h. ground (arith, itoan_loop-read radix (bufn - 1) n [] large small h),
    )
n_itoan-read (negsuc n) bufn radix room large small fits =
    let digits = itoan_loop radix (bufn - 2) (n + 1) [] in
    (
      digits,
      ground arith,
      omega (arith, itoan_loop-length radix (bufn - 2) (n + 1) []),
      λ h. itoan_loop-read radix (bufn - 2) (n + 1) [] large small h,
    )
