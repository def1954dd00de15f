-- ===== src/Listener/InvoiceCore/Active.antt =====
-- `collectActiveNonces` (packages/listener/src/invoice-core.ts) misses no competing invoice.
use zettapay.Prelude.{
  ℕ, ◌+◌, ◌≤◌, ◌≡◌, inl, inr, true, Option, none, some, List, [], ◌∷◌, Text, has, arith, Bool-cases,
  subst, sym,
}
use zettapay.Prelude.Numerals.{big_int}
use zettapay.Listener.Types.{Invoice}
use zettapay.Listener.Nonce.{floor_to_base, nonce_max}
use zettapay.Listener.Watcher.Matching.{In}
use zettapay.Listener.InvoiceCore.{
  add_nonce, add_option, nonce_at, competes, collect_one, nonces_from,
}

has-add_nonce :
    (n m : ℕ) (nonces : List ℕ) → has n nonces ≡ true → has n (add_nonce m nonces) ≡ true
has-add_nonce n m nonces h = ground arith

has-add_nonce_self : (n : ℕ) (nonces : List ℕ) → has n (add_nonce n nonces) ≡ true
has-add_nonce_self n nonces = ground arith

has-add_option :
    (n : ℕ) (o : Option ℕ) (nonces : List ℕ)
    → has n nonces ≡ true
    → has n (add_option o nonces) ≡ true
has-add_option n none nonces h = h
has-add_option n (some m) nonces h = has-add_nonce n m nonces h

module _ (now : ℕ) (fixed_address : Text) (base_units : ℕ) (asset : Text) where
  collect_one-keeps :
      (n : ℕ) (inv : Invoice) (nonces : List ℕ)
      → has n nonces ≡ true
      → has n (collect_one now fixed_address base_units asset nonces inv) ≡ true
  collect_one-keeps n inv nonces h = elim (Bool-cases (competes now fixed_address asset inv)) [
    | inl active ↦ rw active (has-add_option n (nonce_at base_units inv.amount) nonces h)
    | inr idle ↦ rw idle h
  ]

  nonces_from-keeps :
      (n : ℕ) (nonces : List ℕ) (pending : List Invoice)
      → has n nonces ≡ true
      → has n (nonces_from now fixed_address base_units asset nonces pending) ≡ true
  unfolding nonces_from
  nonces_from-keeps n nonces [] h = h
  nonces_from-keeps n nonces (inv ∷ pending) h =
      nonces_from-keeps n (collect_one now fixed_address base_units asset nonces inv) pending
        (collect_one-keeps n inv nonces h)

  -- The nonce of every invoice that passes the guards is in the set.
  pub nonces_from-has :
      (n : ℕ) (inv : Invoice) (nonces : List ℕ) (pending : List Invoice)
      → In inv pending
      → competes now fixed_address asset inv ≡ true
      → nonce_at base_units inv.amount ≡ some n
      → has n (nonces_from now fixed_address base_units asset nonces pending) ≡ true
  unfolding nonces_from
  nonces_from-has n inv nonces [] m c e = absurd m
  nonces_from-has n inv nonces (x ∷ pending) (inr m) c e =
      nonces_from-has n inv (collect_one now fixed_address base_units asset nonces x) pending m c e
  nonces_from-has n inv nonces (x ∷ pending) (inl same) c e =
      let c' = subst (λ (i : Invoice). competes now fixed_address asset i ≡ true) (sym same) c in
      let e' = subst (λ (i : Invoice). nonce_at base_units i.amount ≡ some n) (sym same) e in
      nonces_from-keeps n (collect_one now fixed_address base_units asset nonces x) pending
        (rw (c', e') (has-add_nonce_self n nonces))

-- An amount of base + n has the nonce n at that base.
pub nonce_at-add :
    (base_units n : ℕ) (amount : Text)
    → big_int amount ≡ some (base_units + n)
    → floor_to_base base_units ≡ base_units
    → 1 ≤ n
    → n ≤ nonce_max
    → nonce_at base_units amount ≡ some n
unfolding nonce_at
nonce_at-add base_units n amount e floored p q = ground arith
