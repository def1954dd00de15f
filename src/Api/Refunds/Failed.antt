-- ===== src/Api/Refunds/Failed.antt =====
-- packages/api/src/services/refunds.ts: refunds that have failed, and how a transfer that was signed
-- ends.
use zettapay.Prelude.{
  ◌≡◌, refl, Bool, true, false, not, ◌||◌, Option, none, some, List, [], ◌∷◌, Text, ◌===◌,
  text_eq_iff, find, if◌then◌else◌, arith, Bool-cases, inl, inr, ap, length, ltb, ◌==◌,
}
use zettapay.Prelude.Int.{ℤ}
use zettapay.Api.Errors.{Thrown, ok, err, other}
use zettapay.Api.Refunds.{
  Payment, Merchant, Db, Refund, refund_failed, ProcessRefundInput, answered, Checked, stop, go,
  check, begin, after_check, after_insert, check_payment, check_status, check_merchant,
  check_intent, Signing, find_refund_by_payment_id, find_payment_by_id, insert_refund, new_refund,
  is_completed, is_refunded, refund_reason_max_length,
}
use zettapay.Api.Refunds.Guards.{check-go}
use zettapay.Api.Refunds.Auth.{RefundAuthErrorCode}

or_true : {A : Type 0} (x : A) (b : Bool) → (if b || true then none else some x) ≡ none
or_true x true = refl
or_true x false = refl

module _ {Amount : Type 0} where
  find-key :
      (k : Text) (rows : List (Payment Amount)) {p : Payment Amount}
      → find (λ q. q.id === k) rows ≡ some p
      → p.id ≡ k
  find-key k [] e = cc
  find-key k (q ∷ rows) {p = p} e = ground (arith, text_eq_iff q.id k, find-key k rows {p = p})

  -- The checks end in an error or go on.
  abbrev IsNoSuccess : Checked Amount → Type 0
  IsNoSuccess (stop (ok _)) = ⊥
  IsNoSuccess (stop (err _)) = Unit
  IsNoSuccess (go _ _) = Unit

  if-IsNoSuccess :
      (thrown : Thrown) (b : Bool) (c : Checked Amount)
      → IsNoSuccess c
      → IsNoSuccess (if b then stop (err thrown) else c)
  if-IsNoSuccess thrown true c h = tt
  if-IsNoSuccess thrown false c h = h

module _ {Amount : Type 0} (differ : Amount → Amount → Bool) (signing : Signing Amount)
    (is_public_key : Text → Bool) (refund_id : Text) (now : ℤ) (input : ProcessRefundInput Amount)
    (d : Db Amount) where
  check_intent-IsNoSuccess :
      (p : Payment Amount) (m : Merchant) (o : Option RefundAuthErrorCode)
      → IsNoSuccess (check_intent differ signing is_public_key p m o)
  check_intent-IsNoSuccess p m (some code) = tt
  check_intent-IsNoSuccess p m none = elim (Bool-cases (is_public_key p.payer_wallet)) [
    | inl good ↦ rw good tt
    | inr bad ↦ rw bad tt
  ]

  check_merchant-IsNoSuccess :
      (p : Payment Amount) (o : Option Merchant)
      → IsNoSuccess (check_merchant differ signing is_public_key input now p o)
  check_merchant-IsNoSuccess p none = tt
  check_merchant-IsNoSuccess p (some m) = check_intent-IsNoSuccess p m _

  check_status-IsNoSuccess :
      (p : Payment Amount) → IsNoSuccess (check_status differ signing is_public_key input now d p)
  check_status-IsNoSuccess p = if-IsNoSuccess _ (is_refunded p.status) _ (
      if-IsNoSuccess _ (not (is_completed p.status)) _
        (if-IsNoSuccess _ (differ input.amount p.amount_usdc) _ (check_merchant-IsNoSuccess p _)))

  module _ (r : Refund Amount) (found : find_refund_by_payment_id input.payment_id d ≡ some r)
      (has_failed : r.status ≡ refund_failed) where
    check_payment-IsNoSuccess :
        (o : Option (Payment Amount))
        → IsNoSuccess (check_payment differ signing is_public_key input now d o)
    check_payment-IsNoSuccess none = tt
    check_payment-IsNoSuccess (some p) =
        if-IsNoSuccess _ (not (p.merchant_id === input.merchant_id)) _
          (rw (found, has_failed) (check_status-IsNoSuccess p))

    check-IsNoSuccess : IsNoSuccess (check differ signing is_public_key input now d)
    unfolding check
    check-IsNoSuccess = if-IsNoSuccess _ (length input.reason == 0) _ (
        if-IsNoSuccess _ (ltb refund_reason_max_length (length input.reason)) _
          (check_payment-IsNoSuccess _))

    -- An insertion for the payment is refused.
    refused_row :
        (p : Payment Amount) (m : Merchant)
        → find_payment_by_id input.payment_id d ≡ some p
        → insert_refund (new_refund differ signing is_public_key refund_id input p m) d ≡ none
    unfolding insert_refund find_payment_by_id
    refused_row p m e =
        let key : p.id ≡ input.payment_id = find-key input.payment_id d.payments e in
        let there : find_refund_by_payment_id p.id d ≡ some r = rw key found in
        rw there (or_true _ _)

    -- A payment whose refund has failed is never refunded: every further call for it, by anyone and
    -- at any time, ends in an error, writes nothing and asks for no transfer.
    pub begin-failed :
        (thrown : Thrown) × (begin differ signing is_public_key refund_id now input d
          ≡ (answered (err thrown), d))
    unfolding begin
    begin-failed = ended (check differ signing is_public_key input now d) refl check-IsNoSuccess
      where
        ended :
            (c : Checked Amount)
            → check differ signing is_public_key input now d ≡ c
            → IsNoSuccess c
            → (thrown : Thrown) × (after_check differ signing is_public_key refund_id input d c
                ≡ (answered (err thrown), d))
        ended (stop (err thrown)) e h = (thrown, refl)
        ended (stop (ok a)) e h = absurd h
        ended (go p m) e h =
            let authorized = check-go differ signing is_public_key now input d p m e in
            (
              other,
              ap (after_insert differ signing is_public_key _ d) (refused_row p m authorized.found),
            )
