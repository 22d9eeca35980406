-- ===== src/Mei/Lookup.antt =====
-- The tables of sessions: what is found was put in, and what is put in is found.
use net_port.Common.{
  ℕ, ◌≡◌, true, false, List, [], ◌∷◌, Option, none, some, ◌==◌, All, arith, Bool-cases, inl, inr,
  subst,
}
use net_port.Address.{NetworkAddress, lt}
use net_port.Mei.{PeerKey, key_lt, same_key, find_mim, insert_mim, find_pas, insert_pas}

pub All-implies {ℓ κ μ} :
    {A : Type ℓ} (P : A → Type κ) (Q : A → Type μ) (xs : List A)
    → ((x : A) → P x → Q x)
    → All P xs
    → All Q xs
All-implies P Q [] step vs = tt
All-implies P Q (x ∷ xs) step (v, vs) = (step x v, All-implies P Q xs step vs)

module _ (P : ℕ × ℕ → Type 0) where
  pub find_mim-All : (k id : ℕ) (m : List (ℕ × ℕ)) → All P m → find_mim k m ≡ some id → P (k, id)
  unfolding find_mim
  find_mim-All k id [] vs e = absurd (ground arith)
  find_mim-All k id ((j, i) ∷ m) (v, vs) e = elim (Bool-cases (j == k)) [
    | inl h ↦ subst (λ (x : ℕ × ℕ). P x) (ground arith) v
    | inr h ↦ find_mim-All k id m vs (ground arith)
  ]

  pub insert_mim-All :
      (k id : ℕ) (m : List (ℕ × ℕ)) → P (k, id) → All P m → All P (insert_mim k id m)
  unfolding insert_mim
  insert_mim-All k id m v vs = at_entry (find_mim k m)
    where
      at_entry : (o : Option ℕ) → All P (elim o [ none ↦ (k, id) ∷ m | some _ ↦ m ])
      at_entry none = (v, vs)
      at_entry (some _) = vs

module _ (P : PeerKey × ℕ → Type 0) where
  pub find_pas-All :
      (k : PeerKey) (id : ℕ) (m : List (PeerKey × ℕ))
      → All P m
      → find_pas k m ≡ some id
      → (j : PeerKey) × (same_key k j ≡ true) × P (j, id)
  unfolding find_pas
  find_pas-All k id [] vs e = absurd (ground arith)
  find_pas-All k id ((j, i) ∷ m) (v, vs) e = elim (Bool-cases (same_key k j)) [
    | inl h ↦ (j, h, subst (λ (n : ℕ). P (j, n)) (ground arith) v)
    | inr h ↦ find_pas-All k id m vs (ground arith)
  ]

  pub insert_pas-All :
      (k : PeerKey) (id : ℕ) (m : List (PeerKey × ℕ))
      → P (k, id)
      → All P m
      → All P (insert_pas k id m)
  unfolding insert_pas
  insert_pas-All k id m v vs = at_entry (find_pas k m)
    where
      at_entry : (o : Option ℕ) → All P (elim o [ none ↦ (k, id) ∷ m | some _ ↦ m ])
      at_entry none = (v, vs)
      at_entry (some _) = vs

lt_irrefl : (a : NetworkAddress) → lt a a ≡ false
unfolding lt
lt_irrefl a = ground arith

-- Every key is the same key as itself.
pub same_key_refl : (k : PeerKey) → same_key k k ≡ true
unfolding same_key key_lt
same_key_refl (a, s) = ground (arith, lt_irrefl a)

pub find_pas-insert_pas :
    (k : PeerKey) (id : ℕ) (m : List (PeerKey × ℕ))
    → find_pas k m ≡ none
    → find_pas k (insert_pas k id m) ≡ some id
unfolding find_pas insert_pas
find_pas-insert_pas k id m e = ground (arith, e, same_key_refl k)

pub find_mim-insert_mim :
    (k id : ℕ) (m : List (ℕ × ℕ)) → find_mim k m ≡ none → find_mim k (insert_mim k id m) ≡ some id
unfolding find_mim insert_mim
find_mim-insert_mim k id m e = ground (arith, e)
