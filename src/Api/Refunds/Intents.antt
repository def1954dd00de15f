-- ===== src/Api/Refunds/Intents.antt =====
-- packages/api/src/lib/refund-auth.ts: what a verified intent of a refund says.
use zettapay.Prelude.{
  ℕ, List, ==_iff, ◌≤◌, ◌≡◌, refl, Bool, true, false, not, Option, none, some, Text, ◌===◌,
  text_eq_iff, length, arith, ltb, ltb_false→le, sym, ap, ◌↔◌, if◌then◌else◌, ◌∙◌,
}
use zettapay.Prelude.Int.{ℤ}
use zettapay.Api.Refunds.Auth.{
  RefundIntent, Signing, RefundAuthErrorCode, verify_refund_intent, distance,
  default_refund_intent_ttl_ms, check_date, decode_sized, check_message, check_key, check_signature,
  build_refund_intent_message,
}

pub equal_iff : (s t : Text) → (not (s === t) ≡ false) ↔ (s ≡ t)
equal_iff s t = ground (arith, text_eq_iff s t)

unthrown :
    (code : RefundAuthErrorCode) (b : Bool) {next : Option RefundAuthErrorCode}
    → (if b then some code else next) ≡ none
    → (b ≡ false) × (next ≡ none)
unthrown code true e = cc
unthrown code false e = (refl, e)

-- The signature is good under the key for the message of the intent.
pub record IsSigned {Amount : Type 0} (signing : Signing Amount) (intent : RefundIntent Amount)
    (public_key signature : Text) : Type 0 where
  pub key : List ℕ
  pub sig : List ℕ
  pub message : Text
  pub key_read : signing.base58 public_key ≡ some key
  pub key_size : length key ≡ 32
  pub sig_read : signing.base58 signature ≡ some sig
  pub sig_size : length sig ≡ 64
  pub built : build_refund_intent_message signing intent ≡ some message
  pub good : signing.ed25519 key message sig ≡ true

module _ {Amount : Type 0} (signing : Signing Amount) (public_key signature : Text) (now : ℤ) where
  decoded :
      (n : ℕ) (o : Option (List ℕ)) {raw : List ℕ}
      → decode_sized signing n o ≡ some raw
      → (o ≡ some raw) × (length raw ≡ n)
  decoded n none e = cc
  decoded n (some raw) e = ground (arith, ==_iff (length raw) n)

  check_message-none :
      (key sig : List ℕ) (o : Option Text)
      → check_message signing key sig o ≡ none
      → (message : Text) × (o ≡ some message) × (signing.ed25519 key message sig ≡ true)
  check_message-none key sig none e = cc
  check_message-none key sig (some message) e = (message, refl, ground arith)

  check_key-none :
      (intent : RefundIntent Amount) (k s : Option (List ℕ))
      → k ≡ decode_sized signing 32 (signing.base58 public_key)
      → s ≡ decode_sized signing 64 (signing.base58 signature)
      → check_key signing intent signature k ≡ none
      → IsSigned signing intent public_key signature
  check_key-none intent none s ek es e = cc
  check_key-none intent (some key) none ek es e =
      let refused : check_signature signing intent key none ≡ none =
        ap (check_signature signing intent key) es ∙ e in
      cc
  check_key-none intent (some key) (some sig) ek es e =
      let taken : check_signature signing intent key (some sig) ≡ none =
        ap (check_signature signing intent key) es ∙ e in
      let (found_key, key_size) = decoded 32 (signing.base58 public_key) (sym ek) in
      let (found_sig, sig_size) = decoded 64 (signing.base58 signature) (sym es) in
      let (message, built, good) = check_message-none key sig _ taken in
      record {
        key = key;
        sig = sig;
        message = message;
        key_read = found_key;
        key_size = key_size;
        sig_read = found_sig;
        sig_size = sig_size;
        built = built;
        good = good;
      }

  -- What a verified intent says of the key, of the date and of the signature.
  pub verified-in_time :
      (intent : RefundIntent Amount)
      → verify_refund_intent signing intent public_key signature now ≡ none
      → (public_key ≡ intent.merchant_wallet)
        × ((issued : ℤ) × (signing.parse_date intent.issued_at ≡ some issued)
            × (distance now issued ≤ default_refund_intent_ttl_ms))
        × IsSigned signing intent public_key signature
  unfolding verify_refund_intent
  verified-in_time intent e =
      let (key, e1) = unthrown _ (not (public_key === intent.merchant_wallet)) e in
      let (issued, at, fresh, signed) = dated (signing.parse_date intent.issued_at) refl e1 in
      ((equal_iff _ _).0 key, (issued, at, fresh), signed)
    where
      dated :
          (o : Option ℤ)
          → signing.parse_date intent.issued_at ≡ o
          → check_date signing intent public_key signature now o ≡ none
          → (issued : ℤ) × (signing.parse_date intent.issued_at ≡ some issued)
            × (distance now issued ≤ default_refund_intent_ttl_ms)
            × IsSigned signing intent public_key signature
      dated none at h = cc
      dated (some issued) at h =
          let (fresh, rest) =
            unthrown _ (ltb default_refund_intent_ttl_ms (distance now issued)) h in
          (issued, at, ltb_false→le _ _ fresh, check_key-none intent _ _ refl refl rest)
