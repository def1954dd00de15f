-- ===== src/Listener/Watcher/Matching.antt =====
-- A received value and the invoice that it pays (packages/listener/src/fixed-address-watcher.ts).
use zettapay.Prelude.{
  ℕ, ◌%◌, ◌≤◌, ◌≡◌, ◌≢◌, ◌⊎◌, inl, inr, none, some, List, [], ◌∷◌, arith, Option-cases, sym, subst,
}
use zettapay.Prelude.Numerals.{big_int}
use zettapay.Listener.Types.{Invoice}
use zettapay.Listener.Nonce.{nonce_modulus, nonce_max, match_amount}
use zettapay.Listener.Watcher.{nonce_of, find_invoice_by_value}

-- The invoice is one of the list.
abbrev pub In : Invoice → List Invoice → Type 0
In inv [] = ⊥
In inv (x ∷ xs) = (x ≡ inv) ⊎ In inv xs

pub nonce_of-some :
    (value : ℕ) (inv : Invoice) {n : ℕ}
    → nonce_of value inv ≡ some n
    → (big_int inv.amount ≡ some value) × (n ≡ value % nonce_modulus) × (1 ≤ n) × (n ≤ nonce_max)
unfolding nonce_of match_amount
nonce_of-some value inv e = elim (Option-cases (big_int inv.amount)) [
  | inl missing ↦ absurd (ground arith)
  | inr (units, found) ↦ ground arith
]

pub nonce_of-none :
    (value : ℕ) (inv : Invoice)
    → nonce_of value inv ≡ none
    → big_int inv.amount ≡ some value
    → value % nonce_modulus ≡ 0
unfolding nonce_of match_amount
nonce_of-none value inv e found = ground arith

-- A value that is matched is the exact amount of an active invoice, and its last four digits are
-- the nonce, which is not zero.
pub find_invoice_by_value_sound :
    (active : List Invoice) (value : ℕ) {inv : Invoice} {n : ℕ}
    → find_invoice_by_value active value ≡ some (inv, n)
    → In inv active
      × (big_int inv.amount ≡ some value)
      × (n ≡ value % nonce_modulus)
      × (1 ≤ n)
      × (n ≤ nonce_max)
unfolding find_invoice_by_value
find_invoice_by_value_sound [] value e = cc
find_invoice_by_value_sound (x ∷ xs) value {inv} {n} e = elim (Option-cases (nonce_of value x)) [
  | inl missed ↦
      let (member, exact, low, pos, bound) =
        find_invoice_by_value_sound xs value (rw (missed, find_invoice_by_value) at e) in
      (inr member, exact, low, pos, bound)
  | inr (m, found) ↦
      let (exact, low, pos, bound) = nonce_of-some value x found in
      let same : x ≡ inv = ground arith in
      let same_n : m ≡ n = ground arith in
      (
        inl same,
        subst (λ (i : Invoice). big_int i.amount ≡ some value) same exact,
        omega arith,
        omega arith,
        omega arith,
      )
]

-- A payment of an active invoice's exact amount is never taken for an orphan, if its last four
-- digits are not all zero.
find_invoice_by_value_complete :
    (active : List Invoice) (value : ℕ) (inv : Invoice)
    → In inv active
    → big_int inv.amount ≡ some value
    → value % nonce_modulus ≢ 0
    → find_invoice_by_value active value ≢ none
unfolding find_invoice_by_value
find_invoice_by_value_complete [] value inv m exact ne e = absurd m
find_invoice_by_value_complete (x ∷ xs) value inv (inl same) exact ne e =
    elim (Option-cases (nonce_of value x)) [
      | inl missed ↦ ne (
          nonce_of-none value x missed
            (subst (λ (i : Invoice). big_int i.amount ≡ some value) (sym same) exact))
      | inr (n, found) ↦ absurd (ground arith)
    ]
find_invoice_by_value_complete (x ∷ xs) value inv (inr m) exact ne e =
    elim (Option-cases (nonce_of value x)) [
      | inl missed ↦
          find_invoice_by_value_complete xs value inv m exact ne
            (rw (missed, find_invoice_by_value) at e)
      | inr (n, found) ↦ absurd (ground arith)
    ]
