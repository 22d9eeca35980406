-- ===== src/Buffer.antt =====
-- The bytes of a `PacketData` (include/net/MEISocket.hpp): a buffer as a function from the index,
-- loads and stores of object representations, and the check of every access against the size.
use net_port.Common.{
  ◌∙◌, ap, ◌++◌, ℕ, zero, suc, ◌+◌, ◌≤◌, ◌<◌, ◌≡◌, refl, ◌⊎◌, ap₂, List, [], ◌∷◌, Option, none,
  some, arith, ◌==◌, leb, if◌then◌else◌, length,
}

abbrev pub Buffer : Type 0
Buffer = ℕ → ℕ

-- sizeof(PacketData)
abbrev pub packet_size : ℕ
packet_size = 2048

abbrev pub zeros : Buffer
zeros _ = 0

abbrev pub set_byte : Buffer → ℕ → ℕ → Buffer
set_byte m i v = λ j. if j == i then v else m j

unfoldable pub store : Buffer → ℕ → List ℕ → Buffer
store m i [] = m
store m i (b ∷ bs) = store (set_byte m i b) (i + 1) bs

unfoldable pub load : Buffer → ℕ → ℕ → List ℕ
load m i zero = []
load m i (suc n) = m i ∷ load m (i + 1) n

-- A store or a load that leaves the buffer is a fault.
unfoldable pub store? : Buffer → ℕ → List ℕ → Option Buffer
store? m i bs = if leb (i + length bs) packet_size then some (store m i bs) else none

unfoldable pub load? : Buffer → ℕ → ℕ → Option (List ℕ)
load? m i n = if leb (i + n) packet_size then some (load m i n) else none

pub store_outside :
    (m : Buffer) (i : ℕ) (bs : List ℕ) (j : ℕ)
    → (j < i) ⊎ (i + length bs ≤ j)
    → store m i bs j ≡ m j
unfolding store
store_outside m i [] j h = refl
store_outside m i (b ∷ bs) j h = ground (arith, store_outside (set_byte m i b) (i + 1) bs j)

pub load_ext :
    (m k : Buffer) (i n : ℕ) → ((j : ℕ) → i ≤ j → j < i + n → m j ≡ k j) → load m i n ≡ load k i n
unfolding load
load_ext m k i zero h = refl
load_ext m k i (suc n) h =
    ap₂ ◌∷◌ (h i (omega arith) (omega arith))
      (load_ext m k (i + 1) n (λ j p q. h j (omega arith) (omega arith)))

pub length-load : (m : Buffer) (i n : ℕ) → length (load m i n) ≡ n
unfolding load
length-load m i zero = refl
length-load m i (suc n) = omega (arith, length-load m (i + 1) n)

-- What was stored is loaded again.
pub load-store_same :
    (m : Buffer) (i : ℕ) (bs : List ℕ) (n : ℕ) → n ≡ length bs → load (store m i bs) i n ≡ bs
unfolding load store
load-store_same m i [] zero e = refl
load-store_same m i [] (suc n) e = absurd (omega arith)
load-store_same m i (b ∷ bs) zero e = absurd (omega arith)
load-store_same m i (b ∷ bs) (suc n) e =
    ap₂ ◌∷◌ (ground (arith, store_outside (set_byte m i b) (i + 1) bs i))
      (load-store_same (set_byte m i b) (i + 1) bs n (omega arith))

-- A load apart from a store does not see it.
pub load-store_apart :
    (m : Buffer) (i : ℕ) (bs : List ℕ) (j n : ℕ)
    → (j + n ≤ i) ⊎ (i + length bs ≤ j)
    → load (store m i bs) j n ≡ load m j n
load-store_apart m i bs j n h =
    load_ext (store m i bs) m j n (λ k p q. store_outside m i bs k (ground arith))

pub store-append :
    (m : Buffer) (i : ℕ) (bs cs : List ℕ)
    → store m i (bs ++ cs) ≡ store (store m i bs) (i + length bs) cs
unfolding store
store-append m i [] cs = let e : i ≡ i + 0 = omega arith in ap (λ (k : ℕ). store m k cs) e
store-append m i (b ∷ bs) cs =
    let e : i + 1 + length bs ≡ i + suc (length bs) = omega arith in
    store-append (set_byte m i b) (i + 1) bs cs
    ∙ ap (λ (k : ℕ). store (store (set_byte m i b) (i + 1) bs) k cs) e

-- The two parts of what was stored in one go.
pub load-store_front :
    (m : Buffer) (i : ℕ) (bs cs : List ℕ) (n : ℕ)
    → n ≡ length bs
    → load (store m i (bs ++ cs)) i n ≡ bs
load-store_front m i bs cs n e = rw (store-append m i bs cs) (
    load-store_apart (store m i bs) (i + length bs) cs i n (omega arith)
    ∙ load-store_same m i bs n e)

pub load-store_back :
    (m : Buffer) (i : ℕ) (bs cs : List ℕ) (j n : ℕ)
    → j ≡ i + length bs
    → n ≡ length cs
    → load (store m i (bs ++ cs)) j n ≡ cs
load-store_back m i bs cs j n at e =
    rw (store-append m i bs cs, at) (load-store_same (store m i bs) (i + length bs) cs n e)
