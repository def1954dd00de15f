-- ===== src/Api/Refunds/Guards.antt =====
-- packages/api/src/services/refunds.ts: what has been checked when a transfer is asked for.
use zettapay.Prelude.{
  ◌≤◌, ◌≡◌, refl, Bool, true, false, not, Option, none, some, Text, ◌===◌, length, arith,
  Bool-cases, inl, inr, ◌==◌, ltb, sym, ap, subst, if◌then◌else◌, ◌∙◌,
}
use zettapay.Prelude.Int.{ℤ}
use zettapay.Api.Errors.{err, bad_request}
use zettapay.Api.Refunds.{
  Payment, Merchant, Db, Refund, ProcessRefundInput, Waiting, transfer_input, transferring, Checked,
  stop, go, check, begin, check_payment, check_existing, check_merchant, check_intent, intent_of,
  Signing, verify_refund_intent, find_payment_by_id, find_merchant_by_id, find_refund_by_payment_id,
  is_completed, is_refunded, refund_failed, refund_completed, refund_pending, refund_processing,
  Answer, RefundStatus, check_refund, after_check, after_insert,
}
use zettapay.Api.Refunds.Intents.{equal_iff, IsSigned, verified-in_time}
use zettapay.Api.Refunds.Auth.{
  RefundAuthErrorCode, distance, default_refund_intent_ttl_ms, refund_reason_max_length,
}

module _ {Amount : Type 0} where
  -- A test that was passed.
  past :
      (a : Answer Amount) (b : Bool) {next : Checked Amount} {p : Payment Amount} {m : Merchant}
      → (if b then stop a else next) ≡ go p m
      → (b ≡ false) × (next ≡ go p m)
  past a true e = cc
  past a false e = (refl, e)

  go-payment : {p q : Payment Amount} {m n : Merchant} → go p m ≡ go q n → p ≡ q
  go-payment e = cc

  go-merchant : {p q : Payment Amount} {m n : Merchant} → go p m ≡ go q n → m ≡ n
  go-merchant e = cc

module _ {Amount : Type 0} (differ : Amount → Amount → Bool) (signing : Signing Amount)
    (is_public_key : Text → Bool) (now : ℤ) (input : ProcessRefundInput Amount) where
  -- The payment is the merchant's own, completed, of the amount that is asked back, with a payer
  -- that is an address; and the intent verifies against the wallet of the merchant.
  pub record IsAuthorized (d : Db Amount) (payment : Payment Amount) (merchant : Merchant)
      : Type 0 where
    pub found : find_payment_by_id input.payment_id d ≡ some payment
    pub own : payment.merchant_id ≡ input.merchant_id
    pub completed : is_completed payment.status ≡ true
    pub amount : differ input.amount payment.amount_usdc ≡ false
    pub merchant_found : find_merchant_by_id payment.merchant_id d ≡ some merchant
    pub verified :
        verify_refund_intent signing
          (intent_of differ signing is_public_key input payment merchant)
          input.public_key
          input.signature
          now
        ≡ none
    pub payer : is_public_key payment.payer_wallet ≡ true

  check_intent-go :
      (p payment : Payment Amount) (m merchant : Merchant) (o : Option RefundAuthErrorCode)
      → check_intent differ signing is_public_key p m o ≡ go payment merchant
      → (o ≡ none) × (is_public_key p.payer_wallet ≡ true) × (p ≡ payment) × (m ≡ merchant)
  check_intent-go p payment m merchant (some code) e = cc
  check_intent-go p payment m merchant none e = elim (Bool-cases (is_public_key p.payer_wallet)) [
    | inl good ↦
        let same : go p m ≡ go payment merchant = rw (← e, good) refl in
        (refl, good, go-payment same, go-merchant same)
    | inr bad ↦ let same : stop (err bad_request) ≡ go payment merchant = rw (← e, bad) refl in cc
  ]

  module _ (d : Db Amount) (p : Payment Amount) where
    check_merchant-go :
        (payment : Payment Amount) (merchant : Merchant) (o : Option Merchant)
        → check_merchant differ signing is_public_key input now p o ≡ go payment merchant
        → (p ≡ payment)
          × (o ≡ some merchant)
          × (is_public_key payment.payer_wallet ≡ true)
          × (verify_refund_intent signing
                (intent_of differ signing is_public_key input payment merchant)
                input.public_key
                input.signature
                now
              ≡ none)
    check_merchant-go payment merchant none e = cc
    check_merchant-go payment merchant (some m) e =
        let (verified, payer, same, own) = check_intent-go p payment m merchant _ e in
        (
          same,
          ap some own,
          subst (λ x. is_public_key (Payment.payer_wallet x) ≡ true) same payer,
          verified_at verified same own,
        )
      where
        verified_at :
            verify_refund_intent signing
                (intent_of differ signing is_public_key input p m)
                input.public_key
                input.signature
                now
              ≡ none
            → p ≡ payment
            → m ≡ merchant
            → verify_refund_intent signing
                (intent_of differ signing is_public_key input payment merchant)
                input.public_key
                input.signature
                now
              ≡ none
        verified_at v same own =
            subst
              (λ (x : Payment Amount).
                verify_refund_intent signing
                  (intent_of differ signing is_public_key input x merchant) input.public_key
                  input.signature now
                ≡ none)
              same
              (subst
                (λ (x : Merchant).
                  verify_refund_intent signing (intent_of differ signing is_public_key input p x)
                    input.public_key input.signature now
                  ≡ none)
                own v)

    check_existing-go :
        (next : Checked Amount) (payment : Payment Amount) (merchant : Merchant)
        (o : Option (Refund Amount))
        → check_existing differ signing is_public_key p next o ≡ go payment merchant
        → next ≡ go payment merchant
    check_existing-go next payment merchant none e = e
    check_existing-go next payment merchant (some r) e = by_status r.status e
      where
        by_status :
            (st : RefundStatus)
            → check_refund differ signing is_public_key p next r st ≡ go payment merchant
            → next ≡ go payment merchant
        by_status refund_pending h = cc
        by_status refund_processing h = cc
        by_status refund_completed h = cc
        by_status refund_failed h = h

  check_payment-go :
      (d : Db Amount) (payment : Payment Amount) (merchant : Merchant) (o : Option (Payment Amount))
      → o ≡ find_payment_by_id input.payment_id d
      → check_payment differ signing is_public_key input now d o ≡ go payment merchant
      → IsAuthorized d payment merchant
  check_payment-go d payment merchant none found e = cc
  check_payment-go d payment merchant (some p) found e =
      let (own, e1) = past _ (not (p.merchant_id === input.merchant_id)) e in
      let e2 =
        check_existing-go d p _ payment merchant (find_refund_by_payment_id input.payment_id d)
          e1 in
      let (_, e3) = past _ (is_refunded p.status) e2 in
      let (completed, e4) = past _ (not (is_completed p.status)) e3 in
      let (amount, e5) = past _ (differ input.amount p.amount_usdc) e4 in
      let (same, merchant_found, payer, verified) = check_merchant-go d p payment merchant _ e5 in
      record {
        found = sym found ∙ ap some same;
        own = subst (λ x. Payment.merchant_id x ≡ input.merchant_id) same ((equal_iff _ _).0 own);
        completed = subst (λ x. is_completed (Payment.status x) ≡ true) same (ground arith);
        amount = subst (λ x. differ input.amount (Payment.amount_usdc x) ≡ false) same amount;
        merchant_found =
            subst (λ x. find_merchant_by_id (Payment.merchant_id x) d ≡ some merchant) same
              merchant_found;
        verified = verified;
        payer = payer;
      }

  pub check-go :
      (d : Db Amount) (payment : Payment Amount) (merchant : Merchant)
      → check differ signing is_public_key input now d ≡ go payment merchant
      → IsAuthorized d payment merchant
  unfolding check
  check-go d payment merchant e =
      let (_, e1) = past _ (length input.reason == 0) e in
      let (_, e2) = past _ (ltb refund_reason_max_length (length input.reason)) e1 in
      check_payment-go d payment merchant (find_payment_by_id input.payment_id d) refl e2

  inserted-transferring :
      (w0 w : Waiting Amount) (d : Db Amount) (o : Option (Db Amount))
      → (after_insert differ signing is_public_key w0 d o).0 ≡ transferring w
      → w0 ≡ w
  inserted-transferring w0 w d none e = cc
  inserted-transferring w0 w d (some d') e = cc

  checked-transferring :
      (refund_id : Text) (d : Db Amount) (w : Waiting Amount) (c : Checked Amount)
      → (after_check differ signing is_public_key refund_id input d c).0 ≡ transferring w
      → (merchant : Merchant) × (c ≡ go w.payment merchant)
        × (w.transfer ≡ transfer_input w.payment)
  checked-transferring refund_id d w (stop answer) e = cc
  checked-transferring refund_id d w (go p m) e =
      let same = inserted-transferring _ w d _ e in
      (
        m,
        ap (λ x. go (Waiting.payment x) m) same,
        sym (ap Waiting.transfer same) ∙ ap (λ x. transfer_input (Waiting.payment x)) same,
      )

  -- A transfer that is asked for is to the payer of a completed payment of the merchant who calls, in
  -- the payment's amount and currency, which the call names to within what `differ` allows. The call
  -- has the merchant's wallet for its key and a date within five minutes of now, and the 64 bytes of
  -- its signature are good under the 32 bytes of that key for the message of the payment, the wallet,
  -- the amount, the currency, the reason and the date.
  pub begin-IsAuthorized :
      (refund_id : Text) (d : Db Amount) (w : Waiting Amount)
      → (begin differ signing is_public_key refund_id now input d).0 ≡ transferring w
      → (merchant : Merchant) × IsAuthorized d w.payment merchant
        × (input.public_key ≡ merchant.wallet_address)
        × ((issued : ℤ) × (signing.parse_date input.issued_at ≡ some issued)
            × (distance now issued ≤ default_refund_intent_ttl_ms))
        × IsSigned signing
            (intent_of differ signing is_public_key input w.payment merchant)
            input.public_key
            input.signature
        × (w.transfer ≡ record {
          recipient_owner = w.payment.payer_wallet;
          amount = w.payment.amount_usdc;
          currency = w.payment.currency;
        })
  unfolding begin
  begin-IsAuthorized refund_id d w e =
      let (merchant, went, asked) = checked-transferring refund_id d w _ e in
      let authorized = check-go d w.payment merchant went in
      let (key, dated, signed) =
        verified-in_time signing input.public_key input.signature now _ authorized.verified in
      (merchant, authorized, key, dated, signed, asked)
