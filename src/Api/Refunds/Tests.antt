-- ===== src/Api/Refunds/Tests.antt =====
-- Runs of packages/api/src/services/refunds.ts at concrete tables.
use zettapay.Prelude.{
  ℕ, ◌≤◌, ◌≡◌, refl, Bool, true, not, Option, none, some, List, [], ◌∷◌, Text, codes, ◌===◌, ◌==◌,
  replicate, if◌then◌else◌,
}
use zettapay.Prelude.Int.{ℤ, pos, ◌-ℤ◌}
use zettapay.Api.Errors.{Thrown, err, conflict, other}
use zettapay.Api.Refunds.{
  Payment, Merchant, Db, Refund, completed, failed, refund_processing, refund_completed,
  refund_failed, ProcessRefundInput, Waiting, intent_of, transfer_input, answered, begin, finish,
  signed, refused, Signing, get_refund, mark_refund_completed, mark_payment_refunded,
  find_refund_by_payment_id, check, find_payment_by_id, find_merchant_by_id, verify_refund_intent,
  insert_refund,
}
use zettapay.Api.Refunds.Auth.{build_refund_intent_message, distance, default_refund_intent_ttl_ms}
use zettapay.Api.Refunds.Intents.{IsSigned}
use zettapay.Api.Refunds.Guards.{IsAuthorized, begin-IsAuthorized}
use zettapay.Api.Refunds.Interleaving.{Event, calls, settles, steps, occurrences, asked_once}
use zettapay.Api.Refunds.Failed.{begin-failed}
use zettapay.Api.Refunds.Finished.{finish-conflict}

abbrev differ : ℕ → ℕ → Bool
differ a b = not (a == b)

abbrev raw_text : Text → Option (List ℕ)
raw_text s = if s === codes "wallet" then some (replicate 32 1) else some (replicate 64 2)

-- A signing scheme that takes every message.
abbrev signing : Signing ℕ
signing = record {
  parse_date = λ s. some (pos 1000);
  base58 = raw_text;
  ed25519 = λ key message sig. true;
  to_fixed = λ a. [];
  stringify = λ s. s;
}

abbrev is_public_key : Text → Bool
is_public_key s = true

abbrev payment : Payment ℕ
payment = record {
  id = codes "p";
  merchant_id = codes "m";
  amount_usdc = 5;
  payer_wallet = codes "payer";
  status = completed;
  currency = codes "USDC";
}

abbrev tables : List (Refund ℕ) → Db ℕ
tables refunds = record {
  payments = payment ∷ [];
  merchants = record { id = codes "m"; wallet_address = codes "wallet" } ∷ [];
  refunds = refunds;
  audit = [];
}

abbrev input : ProcessRefundInput ℕ
input = record {
  payment_id = codes "p";
  merchant_id = codes "m";
  amount = 5;
  reason = codes "r";
  issued_at = codes "now";
  public_key = codes "wallet";
  signature = codes "s";
}

abbrev waiting : Waiting ℕ
waiting = record {
  refund_id = codes "f";
  payment = payment;
  merchant_id = codes "m";
  transfer = transfer_input payment;
}

begin-IsAuthorized_example :
    (merchant : Merchant) × IsAuthorized differ signing is_public_key
      (pos 2000)
      input
      (tables [])
      payment
      merchant
    × (codes "wallet" ≡ merchant.wallet_address)
    × ((issued : ℤ) × (some (pos 1000) ≡ some issued)
        × (distance (pos 2000) issued ≤ default_refund_intent_ttl_ms))
    × IsSigned signing
        (intent_of differ signing is_public_key input payment merchant)
        (codes "wallet")
        input.signature
    × (waiting.transfer ≡ record {
      recipient_owner = payment.payer_wallet;
      amount = payment.amount_usdc;
      currency = payment.currency;
    })
unfolding begin check find_payment_by_id ◌===◌ find_refund_by_payment_id find_merchant_by_id
    verify_refund_intent ◌-ℤ◌ insert_refund get_refund build_refund_intent_message
begin-IsAuthorized_example =
    begin-IsAuthorized differ signing is_public_key (pos 2000) input (codes "f") (tables []) waiting
      refl

-- Two calls that overlap, the first of which fails, and a third.
abbrev events : List (Event ℕ)
events =
    calls (codes "f") (pos 2000) input
    ∷ calls (codes "g") (pos 2001) input
    ∷ settles 0 (refused other)
    ∷ calls (codes "h") (pos 2002) input
    ∷ []

asked_once_example :
    occurrences
      (codes "p")
      (steps differ signing is_public_key events
        (record { db = tables []; waiting = []; asked = [] })).asked
    ≤ 1
asked_once_example = asked_once differ signing is_public_key events (tables []) (codes "p")

abbrev refund : Refund ℕ
refund = record {
  id = codes "f";
  payment_id = codes "p";
  merchant_id = codes "m";
  amount_usdc = 5;
  currency = codes "USDC";
  reason = codes "r";
  status = refund_processing;
  tx_signature = none;
  signed_by = codes "wallet";
  signed_at = codes "now";
  signature = codes "s";
}

abbrev failed_refund : Refund ℕ
failed_refund = record refund { status = refund_failed }

begin-failed_example :
    (thrown : Thrown) × (begin differ signing is_public_key
        (codes "g")
        (pos 2000)
        input
        (tables (failed_refund ∷ []))
      ≡ (answered (err thrown), tables (failed_refund ∷ [])))
unfolding find_refund_by_payment_id ◌===◌
begin-failed_example =
    begin-failed differ signing is_public_key (codes "g") (pos 2000) input
      (tables (failed_refund ∷ [])) failed_refund refl refl

-- The tables while the transfer runs, the payment marked as failed by other code.
abbrev raced : Db ℕ
raced = record (tables (refund ∷ [])) { payments = record payment { status = failed } ∷ [] }

abbrev raced_after : Db ℕ
raced_after = record raced {
  refunds = record refund { status = refund_completed; tx_signature = some (codes "t") } ∷ [];
}

finish-conflict_example :
    ((finish waiting (signed (codes "t")) raced).0 ≡ err conflict)
    × (get_refund (codes "f") (finish waiting (signed (codes "t")) raced).1
        ≡ some (record refund { status = refund_failed; tx_signature = some (codes "t") }))
unfolding get_refund ◌===◌ mark_refund_completed mark_payment_refunded
finish-conflict_example =
    finish-conflict waiting (codes "t") raced raced_after refund refl refl refl
