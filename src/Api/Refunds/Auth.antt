-- ===== src/Api/Refunds/Auth.antt =====
-- packages/api/src/lib/refund-auth.ts: the signed intent of a refund. Dates, base58, ed25519 and the
-- rendering of numbers and strings are parameters.
use zettapay.Prelude.{
  ℕ, ◌+◌, ◌*◌, Bool, not, Option, none, some, List, ◌++◌, Text, codes, ◌===◌, length, ltb, ◌==◌,
  if◌then◌else◌,
}
use zettapay.Prelude.Int.{ℤ, pos_part, neg_part, ◌-ℤ◌}

pub data RefundAuthErrorCode : Type 0 where
  invalid_public_key invalid_signature wallet_mismatch : RefundAuthErrorCode
  issued_at_invalid issued_at_expired reason_too_long : RefundAuthErrorCode

pub record RefundIntent (Amount : Type 0) : Type 0 where
  pub payment_id : Text
  pub merchant_wallet : Text
  pub amount : Amount
  pub currency : Text
  pub reason : Text
  pub issued_at : Text

-- `Date.parse`, `bs58.decode`, the verification of a signature under a raw key, `toFixed(6)` and
-- `JSON.stringify`.
pub record Signing (Amount : Type 0) : Type 0 where
  pub parse_date : Text → Option ℤ
  pub base58 : Text → Option (List ℕ)
  pub ed25519 : List ℕ → Text → List ℕ → Bool
  pub to_fixed : Amount → Text
  pub stringify : Text → Text

-- Five minutes.
abbrev pub default_refund_intent_ttl_ms : ℕ
default_refund_intent_ttl_ms = 5 * 60 * 1000

abbrev pub refund_reason_max_length : ℕ
refund_reason_max_length = 500

-- `Math.abs(a - b)`
abbrev pub distance : ℤ → ℤ → ℕ
distance a b = pos_part (a -ℤ b) + neg_part (a -ℤ b)

module _ {Amount : Type 0} (signing : Signing Amount) where
  -- The lines of the message, each behind its name; `none` is a reason that is too long.
  unfoldable pub build_refund_intent_message : RefundIntent Amount → Option Text
  build_refund_intent_message intent =
      if ltb refund_reason_max_length (length intent.reason)
      then none
      else some (
          codes "ZETTAPAY-REFUND-V1\n"
          ++ codes "paymentId="
          ++ intent.payment_id
          ++ codes "\nmerchantWallet="
          ++ intent.merchant_wallet
          ++ codes "\namount="
          ++ signing.to_fixed intent.amount
          ++ codes "\ncurrency="
          ++ intent.currency
          ++ codes "\nreason="
          ++ signing.stringify intent.reason
          ++ codes "\nissuedAt="
          ++ intent.issued_at)

  -- A base58 text of a length in bytes.
  abbrev pub decode_sized : ℕ → Option (List ℕ) → Option (List ℕ)
  decode_sized n none = none
  decode_sized n (some raw) = if length raw == n then some raw else none

  abbrev pub check_message : List ℕ → List ℕ → Option Text → Option RefundAuthErrorCode
  check_message key sig none = some reason_too_long
  check_message key sig (some message) =
      if signing.ed25519 key message sig then none else some invalid_signature

  abbrev pub check_signature :
      RefundIntent Amount → List ℕ → Option (List ℕ) → Option RefundAuthErrorCode
  check_signature intent key none = some invalid_signature
  check_signature intent key (some sig) = check_message key sig (build_refund_intent_message intent)

  abbrev pub check_key : RefundIntent Amount → Text → Option (List ℕ) → Option RefundAuthErrorCode
  check_key intent signature none = some invalid_public_key
  check_key intent signature (some key) =
      check_signature intent key (decode_sized 64 (signing.base58 signature))

  abbrev pub check_date :
      RefundIntent Amount → Text → Text → ℤ → Option ℤ → Option RefundAuthErrorCode
  check_date intent public_key signature now none = some issued_at_invalid
  check_date intent public_key signature now (some issued) =
      if ltb default_refund_intent_ttl_ms (distance now issued)
      then some issued_at_expired
      else check_key intent signature (decode_sized 32 (signing.base58 public_key))

  -- What it throws, if it throws.
  unfoldable pub verify_refund_intent :
      RefundIntent Amount → Text → Text → ℤ → Option RefundAuthErrorCode
  verify_refund_intent intent public_key signature now =
      if not (public_key === intent.merchant_wallet)
      then some wallet_mismatch
      else check_date intent public_key signature now (signing.parse_date intent.issued_at)
