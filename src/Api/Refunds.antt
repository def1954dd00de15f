-- ===== src/Api/Refunds.antt =====
-- packages/api/src/services/refunds.ts: `processRefund`. It does not let go of the event loop before
-- it waits for the transfer, so it is two steps: `begin`, up to the call of `transferToken`, and
-- `finish`, from what that call comes to. Amounts are numbers of JavaScript, a parameter, as is
-- `differ`, the test that they are more than 1e-9 apart.
pub mod Tables
pub mod Auth
pub mod Intents
pub mod Guards
pub mod Rows
pub mod Interleaving
pub mod Failed
pub mod Finished
mod Tests
pub use Auth.{RefundIntent, Signing, refund_reason_max_length}
unfoldable pub use Auth.{verify_refund_intent}
unfoldable pub use Tables.*
use zettapay.Prelude.{
  ℕ, Bool, true, false, not, ◌&&◌, ◌||◌, Option, none, some, Text, length, ltb, ◌==◌, if◌then◌else◌,
  ◌===◌,
}
use zettapay.Prelude.Int.{ℤ}
use zettapay.Api.Errors.{
  Thrown, http, other, Result, ok, err, bad_request, unauthorized, not_found, conflict,
  payment_failed,
}
use Auth.{RefundAuthErrorCode}

pub record ProcessRefundInput (Amount : Type 0) : Type 0 where
  pub payment_id : Text
  pub merchant_id : Text
  pub amount : Amount
  pub reason : Text
  pub issued_at : Text
  pub public_key : Text
  pub signature : Text

abbrev pub Answer : Type 0 → Type 0
Answer Amount = Result (Refund Amount × Payment Amount)

-- What the checks come to: an answer, or the payment and its merchant.
pub data Checked (Amount : Type 0) : Type 0 where
  stop : Answer Amount → Checked Amount
  go : Payment Amount → Merchant → Checked Amount

-- What `transferToken` is given; the owner is the text that `PublicKey` has parsed.
pub record TransferInput (Amount : Type 0) : Type 0 where
  pub recipient_owner : Text
  pub amount : Amount
  pub currency : Text

-- A call that waits for its transfer.
pub record Waiting (Amount : Type 0) : Type 0 where
  pub refund_id : Text
  pub payment : Payment Amount
  pub merchant_id : Text
  pub transfer : TransferInput Amount

abbrev pub transfer_input : {Amount : Type 0} → Payment Amount → TransferInput Amount
transfer_input payment = record {
  recipient_owner = payment.payer_wallet;
  amount = payment.amount_usdc;
  currency = payment.currency;
}

-- The first step either answers or asks for a transfer.
pub data Begun (Amount : Type 0) : Type 0 where
  answered : Answer Amount → Begun Amount
  transferring : Waiting Amount → Begun Amount

-- What `transferToken` comes to: the signature of the transaction, or what it throws.
pub data Transfer : Type 0 where
  signed : Text → Transfer
  refused : Thrown → Transfer

module _ {Amount : Type 0} (differ : Amount → Amount → Bool) (signing : Signing Amount)
    (is_public_key : Text → Bool) where
  abbrev pub intent_of : ProcessRefundInput Amount → Payment Amount → Merchant → RefundIntent Amount
  intent_of input payment merchant = record {
    payment_id = payment.id;
    merchant_wallet = merchant.wallet_address;
    amount = payment.amount_usdc;
    currency = payment.currency;
    reason = input.reason;
    issued_at = input.issued_at;
  }

  abbrev pub check_intent : Payment Amount → Merchant → Option RefundAuthErrorCode → Checked Amount
  check_intent payment merchant (some code) = stop (err unauthorized)
  check_intent payment merchant none =
      if is_public_key payment.payer_wallet then go payment merchant else stop (err bad_request)

  abbrev pub check_merchant :
      ProcessRefundInput Amount → ℤ → Payment Amount → Option Merchant → Checked Amount
  check_merchant input now payment none = stop (err not_found)
  check_merchant input now payment (some merchant) = check_intent payment merchant (
      verify_refund_intent signing (intent_of input payment merchant) input.public_key
        input.signature now)

  -- From the payment's status on.
  abbrev pub check_status :
      ProcessRefundInput Amount → ℤ → Db Amount → Payment Amount → Checked Amount
  check_status input now d payment =
      if is_refunded payment.status
      then stop (err conflict)
      else if not (is_completed payment.status)
      then stop (err conflict)
      else if differ input.amount payment.amount_usdc
      then stop (err bad_request)
      else check_merchant input now payment (find_merchant_by_id payment.merchant_id d)

  -- A failed refund does not stop here.
  abbrev pub check_refund :
      Payment Amount → Checked Amount → Refund Amount → RefundStatus → Checked Amount
  check_refund payment next existing refund_completed = stop (ok (existing, payment))
  check_refund payment next existing refund_pending = stop (err conflict)
  check_refund payment next existing refund_processing = stop (err conflict)
  check_refund payment next existing refund_failed = next

  abbrev pub check_existing :
      Payment Amount → Checked Amount → Option (Refund Amount) → Checked Amount
  check_existing payment next none = next
  check_existing payment next (some existing) = check_refund payment next existing existing.status

  abbrev pub check_payment :
      ProcessRefundInput Amount → ℤ → Db Amount → Option (Payment Amount) → Checked Amount
  check_payment input now d none = stop (err not_found)
  check_payment input now d (some payment) =
      if not (payment.merchant_id === input.merchant_id)
      then stop (err not_found)
      else check_existing payment (check_status input now d payment)
          (find_refund_by_payment_id input.payment_id d)

  -- All that comes before the row is inserted; nothing is written.
  unfoldable pub check : ProcessRefundInput Amount → ℤ → Db Amount → Checked Amount
  check input now d =
      if length input.reason == 0
      then stop (err bad_request)
      else if ltb refund_reason_max_length (length input.reason)
      then stop (err bad_request)
      else check_payment input now d (find_payment_by_id input.payment_id d)

  abbrev pub new_refund :
      Text → ProcessRefundInput Amount → Payment Amount → Merchant → Refund Amount
  new_refund refund_id input payment merchant = record {
    id = refund_id;
    payment_id = payment.id;
    merchant_id = merchant.id;
    amount_usdc = payment.amount_usdc;
    currency = payment.currency;
    reason = input.reason;
    status = refund_pending;
    tx_signature = none;
    signed_by = input.public_key;
    signed_at = input.issued_at;
    signature = input.signature;
  }

  abbrev pub after_insert :
      Waiting Amount → Db Amount → Option (Db Amount) → Begun Amount × Db Amount
  after_insert w d none = (answered (err other), d)
  after_insert w d (some d') = (transferring w, mark_refund_processing w.refund_id d')

  abbrev pub after_check :
      Text → ProcessRefundInput Amount → Db Amount → Checked Amount → Begun Amount × Db Amount
  after_check refund_id input d (stop answer) = (answered answer, d)
  after_check refund_id input d (go payment merchant) =
      let w : Waiting Amount = record {
        refund_id = refund_id;
        payment = payment;
        merchant_id = merchant.id;
        transfer = transfer_input payment;
      } in
      after_insert w d (insert_refund (new_refund refund_id input payment merchant) d)

  -- `refund_id` is what `newId` returns, and `now` what the clock does.
  unfoldable pub begin : Text → ℤ → ProcessRefundInput Amount → Db Amount → Begun Amount × Db Amount
  begin refund_id now input d = after_check refund_id input d (check input now d)

-- An error that is no `HttpError` is turned into one.
abbrev pub as_http : Thrown → Thrown
as_http (http code) = http code
as_http other = payment_failed

module _ {Amount : Type 0} where
  abbrev pub audit_entry : AuditEvent → Waiting Amount → AuditEntry
  audit_entry event w = record {
    event = event;
    merchant_id = w.merchant_id;
    payment_id = w.payment.id;
    refund_id = w.refund_id;
  }

  -- The catch block.
  abbrev pub caught : Waiting Amount → Thrown → Db Amount → Answer Amount × Db Amount
  caught w thrown d = (
    err (as_http thrown),
    append_audit (audit_entry payment_refund_failed w) (mark_refund_failed w.refund_id d),
  )

  abbrev pub or_payment : Payment Amount → Option (Payment Amount) → Payment Amount
  or_payment payment none = payment
  or_payment payment (some p) = p

  abbrev pub returned :
      Waiting Amount → Db Amount → Option (Refund Amount) → Answer Amount × Db Amount
  returned w d none = caught w other d
  returned w d (some r) = (ok (r, or_payment w.payment (find_payment_by_id w.payment.id d)), d)

  abbrev pub after_payment : Waiting Amount → Bool × Db Amount → Answer Amount × Db Amount
  after_payment w (false, d) = caught w conflict d
  after_payment w (true, d) =
      let d' = append_audit (audit_entry payment_refunded w) d in
      returned w d' (get_refund w.refund_id d')

  abbrev pub after_completed :
      Waiting Amount → Db Amount → Option (Db Amount) → Answer Amount × Db Amount
  after_completed w d none = caught w other d
  after_completed w d (some d') = after_payment w (mark_payment_refunded w.payment.id d')

  unfoldable pub finish : Waiting Amount → Transfer → Db Amount → Answer Amount × Db Amount
  finish w (refused thrown) d = caught w thrown d
  finish w (signed tx) d = after_completed w d (mark_refund_completed w.refund_id tx d)
