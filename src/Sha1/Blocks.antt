-- ===== src/Sha1/Blocks.antt =====
-- A block of 64 bytes is one application of the compression function.
use net_port.Common.{
  All, ℕ, zero, suc, ◌+◌, ◌*◌, ◌^◌, ◌%◌, ◌≤◌, ◌<◌, ◌≡◌, ◌∙◌, refl, ap, arith, List, [], ◌∷◌, ◌++◌,
  length, length-append, get_or, bit_and-low_mask,
}
use net_port.Buffer.{Buffer, set_byte, store, store_outside, zeros}
use net_port.Sha1.{
  rounds, extend_words, Hash, Sha1, load_words, schedule, compress, block_update, add_byte,
  add_message,
}

-- Feeding two parts one after the other is feeding them as one.
pub add_message-append :
    (xs ys : List ℕ) (s : Sha1) → add_message (xs ++ ys) s ≡ add_message ys (add_message xs s)
unfolding add_message
add_message-append [] ys s = refl
add_message-append (x ∷ xs) ys s = add_message-append xs ys (add_byte x s)

load_words_ext :
    (left i : ℕ) (m k w : Buffer)
    → ((j : ℕ) → j < 64 → m j ≡ k j)
    → i + left ≤ 16
    → load_words left i m w ≡ load_words left i k w
unfolding load_words
load_words_ext zero i m k w h fits = refl
load_words_ext (suc left) i m k w h fits =
    ap (λ (v : ℕ). load_words left (i + 1) m (set_byte w i v))
      (rw (
        h (i * 4) (omega arith),
        h (i * 4 + 1) (omega arith),
        h (i * 4 + 2) (omega arith),
        h (i * 4 + 3) (omega arith),
      ))
    ∙ load_words_ext left (i + 1) m k _ h (omega arith)

-- Only the first 64 bytes of the buffer matter.
pub compress_ext :
    (h : Hash) (m k : Buffer) → ((j : ℕ) → j < 64 → m j ≡ k j) → compress h m ≡ compress h k
unfolding compress schedule
compress_ext h m k e =
    ap (λ (w : Buffer). rounds h (extend_words 64 16 w))
      (load_words_ext 16 0 m k zeros e (omega arith))

add_byte_within :
    (m : ℕ) (s : Sha1) (p : ℕ)
    → s.len % 64 ≡ p
    → p + 1 < 64
    → s.len + 1 < 2 ^ 64
    → add_byte m s ≡ record s { len = s.len + 1; mc = set_byte s.mc p m }
unfolding add_byte
add_byte_within m s p at less small =
    ground (arith, bit_and-low_mask 6 s.len, bit_and-low_mask 6 (s.len + 1))

add_byte_last :
    (m : ℕ) (s : Sha1)
    → s.len % 64 ≡ 63
    → s.len + 1 < 2 ^ 64
    → add_byte m s ≡ record s {
      hash = compress s.hash (set_byte s.mc 63 m);
      len = s.len + 1;
      mc = set_byte s.mc 63 m;
    }
unfolding add_byte block_update
add_byte_last m s at small =
    ground (arith, bit_and-low_mask 6 s.len, bit_and-low_mask 6 (s.len + 1))

-- Bytes that complete the pending block: one compression.
pub fill_block :
    (bs : List ℕ) (s : Sha1) (p : ℕ)
    → s.len % 64 ≡ p
    → p + length bs ≡ 64
    → s.len + length bs < 2 ^ 64
    → add_message bs s ≡ record s {
      hash = compress s.hash (store s.mc p bs);
      len = s.len + length bs;
      mc = store s.mc p bs;
    }
unfolding add_message store
fill_block [] s p at full small = absurd (omega arith)
fill_block (m ∷ []) s p at full small =
    let last : p ≡ 63 = omega arith in rw (add_byte_last m s (omega arith) (omega arith), last) refl
fill_block (m ∷ n ∷ ms) s p at full small =
    rw (add_byte_within m s p at (omega arith) (omega arith)) (
      fill_block (n ∷ ms) (record s { len = s.len + 1; mc = set_byte s.mc p m }) (p + 1)
        (omega arith) (omega arith) (omega arith)
      ∙ ap
          (λ (l : ℕ). record s {
            hash = compress s.hash (store s.mc p (m ∷ n ∷ ms));
            len = l;
            mc = store s.mc p (m ∷ n ∷ ms);
          })
          (omega arith))

-- The hash after whole blocks.
abbrev pub block_at : List ℕ → Buffer
block_at bs = λ i. get_or bs i 0

pub absorb : Hash → List (List ℕ) → Hash
absorb h [] = h
absorb h (b ∷ bs) = absorb (compress h (block_at b)) bs

abbrev pub concat : List (List ℕ) → List ℕ
concat [] = []
concat (b ∷ bs) = b ++ concat bs

abbrev pub IsBlock : List ℕ → Type 0
IsBlock b = length b ≡ 64

store-get_or :
    (m : Buffer) (i : ℕ) (bs : List ℕ) (j k : ℕ)
    → k ≡ i + j
    → j < length bs
    → store m i bs k ≡ get_or bs j 0
unfolding store
store-get_or m i [] j k e h = absurd (omega arith)
store-get_or m i (b ∷ bs) zero k e h =
    store_outside (set_byte m i b) (i + 1) bs k (omega arith) ∙ ground arith
store-get_or m i (b ∷ bs) (suc j) k e h =
    store-get_or (set_byte m i b) (i + 1) bs j k (omega arith) (omega arith)

pub add_message-absorb :
    (bs : List (List ℕ)) (s : Sha1)
    → All IsBlock bs
    → s.len % 64 ≡ 0
    → s.len + length (concat bs) < 2 ^ 64
    → (add_message (concat bs) s).hash ≡ absorb s.hash bs
unfolding absorb
add_message-absorb [] s v at small = unfold add_message in refl
add_message-absorb (b ∷ bs) s (v, vs) at small =
    let sum = length-append b (concat bs) in
    let same : compress s.hash (store s.mc 0 b) ≡ compress s.hash (block_at b) =
      compress_ext s.hash (store s.mc 0 b) (block_at b)
        (λ j h. store-get_or s.mc 0 b j j (omega arith) (omega arith)) in
    let t : Sha1 = record {
      hash = compress s.hash (store s.mc 0 b);
      len = s.len + length b;
      mc = store s.mc 0 b;
    } in
    rw (add_message-append b (concat bs) s, fill_block b s 0 at (omega arith) (omega (arith, sum)))
      (add_message-absorb bs t vs (omega arith) (omega (arith, sum))
        ∙ ap (λ (h : Hash). absorb h bs) same)
