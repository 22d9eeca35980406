-- ===== src/Transfer/Sequence.antt =====
-- The 64-bit sequence number, kept as two words.
use net_port.Common.{ℕ, zero, suc, ◌+◌, ◌*◌, ◌^◌, ◌<◌, ◌≡◌, ◌≢◌, arith, bit_or-fields, u64}
use net_port.Transfer.{Transfer, cseqlocal, seqlocal}

abbrev pub seq_value : Transfer → ℕ
seq_value t = t.lseqh * 2 ^ 32 + t.lseq

abbrev pub IsCounter : Transfer → Type 0
IsCounter t = (t.lseq < 2 ^ 32) × (t.lseqh < 2 ^ 32)

pub cseqlocal_lem : (t : Transfer) → IsCounter t → cseqlocal t ≡ seq_value t
unfolding cseqlocal
cseqlocal_lem t v = bit_or-fields 32 t.lseqh t.lseq (omega arith)

pub seqlocal-IsCounter : (t : Transfer) → IsCounter t → IsCounter (seqlocal t).1
unfolding seqlocal
seqlocal-IsCounter t v = ground arith

pub seqlocal_lem :
    (t : Transfer)
    → IsCounter t
    → ((seqlocal t).0 ≡ seq_value t) × (seq_value (seqlocal t).1 ≡ u64 (seq_value t + 1))
unfolding seqlocal
seqlocal_lem t v = (cseqlocal_lem t v, ground arith)

-- The transfer after `n` numbers were drawn.
pub drawn : ℕ → Transfer → Transfer
drawn zero t = t
drawn (suc n) t = drawn n (seqlocal t).1

drawn_value :
    (n : ℕ) (t : Transfer) → IsCounter t → (seqlocal (drawn n t)).0 ≡ u64 (seq_value t + n)
unfolding drawn
drawn_value zero t v = omega (arith, seqlocal_lem t v)
drawn_value (suc n) t v =
    omega (arith, drawn_value n (seqlocal t).1 (seqlocal-IsCounter t v), seqlocal_lem t v)

-- The numbers drawn run upwards one by one modulo 2 ^ 64, whatever the words start at, so none
-- comes twice within 2 ^ 64 draws.
pub seqlocal-drawn :
    (t : Transfer)
    → IsCounter t
    → ((n : ℕ) → (seqlocal (drawn n t)).0 ≡ u64 (seq_value t + n))
      × ((m n : ℕ) → m < n → n < m + 2 ^ 64 → (seqlocal (drawn m t)).0 ≢ (seqlocal (drawn n t)).0)
seqlocal-drawn t v =
    (λ n. drawn_value n t v, λ m n less near e. omega (arith, drawn_value m t v, drawn_value n t v))
