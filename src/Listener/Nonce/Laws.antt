-- ===== src/Listener/Nonce/Laws.antt =====
-- Allocation and recovery of nonces (packages/listener/src/evm-amount-nonce.ts).
use zettapay.Prelude.{
  ℕ, zero, suc, ◌+◌, ◌-◌, ◌%◌, ◌≤◌, ◌<◌, ◌≡◌, refl, inl, inr, true, false, List, none, some, has,
  arith, Bool-cases, ◌==◌, ==_iff,
}
use zettapay.Prelude.Int.{pos, negsuc, ◌+ℤ◌, ◌-ℤ◌, rem}
use zettapay.Listener.Nonce.{nonce_max, Start, not_finite, integer, normalize_nonce_start, scan}

-- Every start lands in the ring.
pub normalize_bounds :
    (s : Start) → (1 ≤ normalize_nonce_start s) × (normalize_nonce_start s ≤ nonce_max)
unfolding normalize_nonce_start rem ◌+ℤ◌ ◌-ℤ◌
normalize_bounds not_finite = omega arith
normalize_bounds (integer (pos s)) = ground arith
normalize_bounds (integer (negsuc s)) = ground arith

-- A start in the ring is kept.
pub normalize_id : (s : ℕ) → 1 ≤ s → s ≤ nonce_max → normalize_nonce_start (integer (pos s)) ≡ s
unfolding normalize_nonce_start rem ◌+ℤ◌ ◌-ℤ◌
normalize_id s h k = ground arith

abbrev pub slot : ℕ → ℕ → ℕ
slot origin i = (origin - 1 + i) % nonce_max + 1

slots_before :
    (active : List ℕ) (origin i j : ℕ)
    → has (slot origin i) active ≡ true
    → ((k : ℕ) → i + 1 ≤ k → k < j → has (slot origin k) active ≡ true)
    → (k : ℕ) → i ≤ k
    → k < j
    → has (slot origin k) active ≡ true
slots_before active origin i j taken before k p q = elim (Bool-cases (k == i)) [
  | inl same ↦ rw ((==_iff k i).0 same) taken
  | inr other ↦ before k (ground arith) q
]

pub scan-some :
    (active : List ℕ) (origin i left : ℕ) {n : ℕ}
    → scan active origin i left ≡ some n
    → (j : ℕ) × (i ≤ j)
      × (n ≡ slot origin j)
      × (has n active ≡ false)
      × ((k : ℕ) → i ≤ k → k < j → has (slot origin k) active ≡ true)
unfolding scan
scan-some active origin i zero e = cc
scan-some active origin i (suc left) e = elim (Bool-cases (has (slot origin i) active)) [
  | inl taken ↦
      let (j, low, at_j, free, before) = scan-some active origin (i + 1) left (ground arith) in
      (j, omega arith, at_j, free, λ k p q. slots_before active origin i j taken before k p q)
  | inr free ↦ (i, omega arith, ground arith, ground arith, λ k p q. absurd (omega arith))
]

pub scan-none :
    (active : List ℕ) (origin i left : ℕ)
    → scan active origin i left ≡ none
    → (k : ℕ) → i ≤ k
    → k < i + left
    → has (slot origin k) active ≡ true
unfolding scan
scan-none active origin i zero e k p q = absurd (omega arith)
scan-none active origin i (suc left) e k p q = elim (Bool-cases (k == i)) [
  | inl same ↦ ground arith
  | inr other ↦ scan-none active origin (i + 1) left (ground arith) k (ground arith) (omega arith)
]

pub scan-full :
    (active : List ℕ) (origin i left : ℕ)
    → ((n : ℕ) → 1 ≤ n → n ≤ nonce_max → has n active ≡ true)
    → scan active origin i left ≡ none
unfolding scan
scan-full active origin i zero h = refl
scan-full active origin i (suc left) h =
    ground
      (arith, h (slot origin i) (omega arith) (omega arith), scan-full active origin (i + 1) left h)
