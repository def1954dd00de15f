-- ===== src/Listener/Nonce/Amounts.antt =====
-- What the callers of packages/listener/src/evm-amount-nonce.ts rely on.
use zettapay.Prelude.{
  ℕ, zero, suc, ◌+◌, ◌-◌, ◌%◌, ◌≤◌, ◌<◌, ◌≡◌, ◌≢◌, ◌↔◌, inl, inr, true, false, not, List, [], ◌∷◌,
  none, some, has, arith, Option-cases, ◌==◌, length, keep, subst, length-keep-le,
}
use zettapay.Prelude.Int.{pos}
use zettapay.Listener.Errors.{pool_exhausted, ok, err}
use zettapay.Listener.Pricing.{Double}
use zettapay.Listener.Nonce.{
  nonce_max, floor_to_base, Start, integer, normalize_nonce_start, scan, allocate_nonce,
  EncodedAmount, base_units_for_usd, encode_amount, match_amount,
}
use zettapay.Listener.Nonce.Laws.{
  normalize_bounds, normalize_id, slot, scan-some, scan-none, scan-full,
}

-- A nonce that is handed out lies in 1..9999 and is not among the active ones, for every start.
pub allocate_nonce_free :
    (active : List ℕ) (start : Start) {n : ℕ}
    → allocate_nonce active start ≡ ok n
    → (1 ≤ n) × (n ≤ nonce_max) × (has n active ≡ false)
unfolding allocate_nonce
allocate_nonce_free active start e =
    let origin = normalize_nonce_start start in
    elim (Option-cases (scan active origin 0 nonce_max)) [
      | inl failed ↦ ground arith
      | inr (m, found) ↦
          let (j, _, at_j, free, _) = scan-some active origin 0 nonce_max found in ground arith
    ]

-- The ring walk meets every nonce.
reach : ℕ → ℕ → ℕ
reach origin n = (n + nonce_max - origin) % nonce_max

slot-reach :
    (origin n : ℕ)
    → 1 ≤ origin
    → origin ≤ nonce_max
    → 1 ≤ n
    → n ≤ nonce_max
    → (slot origin (reach origin n) ≡ n) × (reach origin n < nonce_max)
unfolding reach
slot-reach origin n h k p q = (omega arith, omega arith)

-- Allocation fails exactly when every nonce of 1..9999 is active; otherwise it hands one out.
pub allocate_nonce_exhausted_iff :
    (active : List ℕ) (start : Start)
    → (allocate_nonce active start ≡ err pool_exhausted)
      ↔ ((n : ℕ) → 1 ≤ n → n ≤ nonce_max → has n active ≡ true)
unfolding allocate_nonce
allocate_nonce_exhausted_iff active start = (to, from)
  where
    origin : ℕ
    origin = normalize_nonce_start start

    to :
        allocate_nonce active start ≡ err pool_exhausted
        → (n : ℕ) → 1 ≤ n
        → n ≤ nonce_max
        → has n active ≡ true
    to e n p q =
        let (low, high) = normalize_bounds start in
        let (there, below) = slot-reach origin n low high p q in
        let failed : scan active origin 0 nonce_max ≡ none =
          elim (Option-cases (scan active origin 0 nonce_max)) [
            | inl failed ↦ failed
            | inr (m, found) ↦ ground arith
          ] in
        subst (λ k. has k active ≡ true) there
          (scan-none active origin 0 nonce_max failed (reach origin n) (omega arith) (omega arith))

    from :
        ((n : ℕ) → 1 ≤ n → n ≤ nonce_max → has n active ≡ true)
        → allocate_nonce active start ≡ err pool_exhausted
    from all = rw (scan-full active origin 0 nonce_max all)

-- From the default start 1 the nonce is the smallest that is free.
pub allocate_nonce_least :
    (active : List ℕ) {n : ℕ}
    → allocate_nonce active (integer (pos 1)) ≡ ok n
    → (m : ℕ) → 1 ≤ m
    → m < n
    → has m active ≡ true
unfolding allocate_nonce
allocate_nonce_least active e m p q =
    let one = normalize_id 1 (omega arith) (omega arith) in
    let (_, bound, _) = allocate_nonce_free active (integer (pos 1)) e in
    elim (Option-cases (scan active 1 0 nonce_max)) [
      | inl failed ↦ absurd (ground arith)
      | inr (r, found) ↦
          let (j, _, at_j, _, before) = scan-some active 1 0 nonce_max found in
          subst (λ k. has k active ≡ true) (omega arith)
            (before (m - 1) (omega arith) (ground arith))
    ]

-- The number of entries of a list that are not `n`.
without : ℕ → List ℕ → List ℕ
without n xs = keep (λ x. not (n == x)) xs

length-without : (n : ℕ) (xs : List ℕ) → has n xs ≡ true → length (without n xs) < length xs
unfolding without
length-without n [] h = cc
length-without n (x ∷ xs) h =
    ground (arith, length-without n xs, length-keep-le (λ y. not (n == y)) xs)

has-without : (n m : ℕ) (xs : List ℕ) → m ≢ n → has m xs ≡ true → has m (without n xs) ≡ true
unfolding without
has-without n m [] ne h = cc
has-without n m (x ∷ xs) ne h = ground (arith, has-without n m xs ne)

-- A list that has each of 1..k has at least k entries.
pigeonhole : (k : ℕ) (xs : List ℕ) → ((n : ℕ) → 1 ≤ n → n ≤ k → has n xs ≡ true) → k ≤ length xs
pigeonhole zero xs h = omega arith
pigeonhole (suc k) xs h =
    let fewer = length-without (suc k) xs (h (suc k) (omega arith) (omega arith)) in
    let rest =
      pigeonhole k (without (suc k) xs)
        (λ n p q. has-without (suc k) n xs (omega arith) (h n p (omega arith))) in
    omega arith

allocated :
    (active : List ℕ) (start : Start)
    → length active < nonce_max
    → (n : ℕ) × (allocate_nonce active start ≡ ok n)
unfolding allocate_nonce
allocated active start few =
    elim (Option-cases (scan active (normalize_nonce_start start) 0 nonce_max)) [
      | inl failed ↦
          let all = (allocate_nonce_exhausted_iff active start).0 (rw failed) in
          absurd (omega (arith, pigeonhole nonce_max active all))
      | inr (n, found) ↦ (n, rw found)
    ]

-- While fewer than 9999 invoices are active, a nonce is handed out, whatever the start; it lies in
-- 1..9999 and is not among the active ones.
pub allocate_nonce_total :
    (active : List ℕ) (start : Start)
    → length active < nonce_max
    → (n : ℕ) × (allocate_nonce active start ≡ ok n)
      × (1 ≤ n)
      × (n ≤ nonce_max)
      × (has n active ≡ false)
allocate_nonce_total active start few =
    let (n, e) = allocated active start few in
    let (low, high, free) = allocate_nonce_free active start e in (n, e, low, high, free)

-- A received value has the nonce n against a base exactly when it is base + n, with n at most 9999.
pub match_amount_iff :
    (received base n : ℕ)
    → (match_amount received base ≡ some n) ↔ ((received ≡ base + n) × (n ≤ nonce_max))
unfolding match_amount
match_amount_iff received base n = ground arith

module _ (d : Double) where
  -- What is encoded for a price and a nonce in 1..9999 is the price's base plus the nonce, and both
  -- are recovered from the amount alone.
  pub encode_amount_roundtrip :
      (usd : d.Number) (nonce : ℕ) {e : EncodedAmount}
      → encode_amount d usd nonce ≡ ok e
      → (1 ≤ nonce)
        × (nonce ≤ nonce_max)
        × (base_units_for_usd d usd ≡ ok e.base_units)
        × (floor_to_base e.units ≡ e.base_units)
        × (match_amount e.units e.base_units ≡ some nonce)
  unfolding encode_amount base_units_for_usd match_amount
  encode_amount_roundtrip usd nonce eq = ground arith

  -- Two encoded amounts are equal only if both the bases and the nonces are.
  pub encode_amount_injective :
      (usd usd' : d.Number) (nonce nonce' : ℕ) {e e' : EncodedAmount}
      → encode_amount d usd nonce ≡ ok e
      → encode_amount d usd' nonce' ≡ ok e'
      → e.units ≡ e'.units
      → (nonce ≡ nonce') × (base_units_for_usd d usd ≡ base_units_for_usd d usd')
  encode_amount_injective usd usd' nonce nonce' eq eq' same =
      let (_, _, base, floored, matched) = encode_amount_roundtrip usd nonce eq in
      let (_, _, base', floored', matched') = encode_amount_roundtrip usd' nonce' eq' in
      ground arith
