-- ===== src/Webhooks/Sdk.antt =====
-- packages/sdk/src/webhooks/index.ts: `verifyWebhook`. `JSON.parse` is a parameter.
use zettapay.Prelude.{
  ℕ, ◌+◌, ◌*◌, ◌^◌, Bool, true, false, not, ◌&&◌, ◌||◌, Option, none, some, [], ◌∷◌, Text, ltb,
  ◌==◌, ◌===◌, length, if◌then◌else◌, to_lower_case, trim,
}
use zettapay.Prelude.Dict.{Dict}
use zettapay.Webhooks.Headers.{
  Hmac, is_digit, is_hex, all_of, signature_header, timestamp_header, event_id_header,
  attempt_header,
}
use zettapay.Prelude.Numerals.{parse_int}

abbrev pub default_webhook_tolerance_ms : ℕ
default_webhook_tolerance_ms = 5 * 60 * 1000

pub data WebhookVerificationErrorCode : Type 0 where
  missing_signature malformed_signature signature_mismatch : WebhookVerificationErrorCode
  missing_timestamp invalid_timestamp timestamp_out_of_tolerance : WebhookVerificationErrorCode
  invalid_payload : WebhookVerificationErrorCode
  -- The TypeError without a secret.
  secret_required : WebhookVerificationErrorCode

pub data Result {ℓ} (A : Type ℓ) : Type ℓ where
  ok : A → Result A
  err : WebhookVerificationErrorCode → Result A

abbrev pub is_empty : Text → Bool
is_empty [] = true
is_empty (c ∷ s) = false

-- What `JSON.parse` returns: an object whose `event` is a text, or anything else.
pub data Json (E : Type 0) : Type 0 where
  event_object : E → Json E
  other_json : Json E

-- A tolerance that is left out is `five_minutes`, and `null` is `unchecked`.
pub data Tolerance : Type 0 where
  five_minutes unchecked : Tolerance
  within_ms : ℕ → Tolerance

pub record VerifyWebhookInput : Type 0 where
  pub raw_body : Text
  pub headers : Dict Text
  pub secret : Text
  pub tolerance_ms : Tolerance
  pub now : ℕ

pub record VerifiedWebhook (E : Type 0) : Type 0 where
  pub event : E
  pub event_id : Option Text
  pub attempt : Option ℕ
  pub timestamp_ms : ℕ

-- The first value under the name that is not blank, in any case of the name, trimmed. A `Headers`
-- object does the same.
abbrev pub first_value : Text → Dict Text → Option Text
first_value wanted [] = none
first_value wanted ((key, value) ∷ bag) =
    if to_lower_case key === wanted && not (is_empty (trim value))
    then some (trim value)
    else first_value wanted bag

unfoldable pub read_header : Dict Text → Text → Option Text
read_header bag name = first_value (to_lower_case name) bag

-- A numeral that is too long for a number is taken exactly.
abbrev pub attempt_of : Option Text → Option ℕ
attempt_of none = none
attempt_of (some raw) = if all_of is_digit raw then some (parse_int 0 raw) else none

-- `Math.abs(now - timestampMs) > tolerance`
abbrev pub is_outside : Tolerance → ℕ → ℕ → Bool
is_outside unchecked now ts = false
is_outside five_minutes now ts =
    ltb (ts + default_webhook_tolerance_ms) now || ltb (now + default_webhook_tolerance_ms) ts
is_outside (within_ms tolerance) now ts = ltb (ts + tolerance) now || ltb (now + tolerance) ts

-- `Number.isSafeInteger`
abbrev pub is_safe_integer : ℕ → Bool
is_safe_integer n = ltb n (2 ^ 53)

module _ {E : Type 0} (hmac : Hmac) (parse : Text → Option (Json E)) where
  abbrev pub decode : VerifyWebhookInput → ℕ → Option (Json E) → Result (VerifiedWebhook E)
  decode input ts none = err invalid_payload
  decode input ts (some other_json) = err invalid_payload
  decode input ts (some (event_object event)) = ok (record {
    event = event;
    event_id = read_header input.headers event_id_header;
    attempt = attempt_of (read_header input.headers attempt_header);
    timestamp_ms = ts;
  })

  abbrev pub check_tolerance : VerifyWebhookInput → ℕ → Result (VerifiedWebhook E)
  check_tolerance input ts =
      if is_outside input.tolerance_ms input.now ts
      then err timestamp_out_of_tolerance
      else decode input ts (parse input.raw_body)

  abbrev pub check_timestamp : VerifyWebhookInput → Option Text → Result (VerifiedWebhook E)
  check_timestamp input none = err missing_timestamp
  check_timestamp input (some raw) =
      if not (all_of is_digit raw) || not (is_safe_integer (parse_int 0 raw))
      then err invalid_timestamp
      else check_tolerance input (parse_int 0 raw)

  -- The digests' bytes are compared, so the case of the hexadecimal digits does not matter.
  abbrev pub check_signature : VerifyWebhookInput → Option Text → Result (VerifiedWebhook E)
  check_signature input none = err missing_signature
  check_signature input (some signature) =
      if not (length signature == 64) || not (all_of is_hex signature)
      then err malformed_signature
      else if not (to_lower_case signature === hmac input.secret input.raw_body)
      then err signature_mismatch
      else check_timestamp input (read_header input.headers timestamp_header)

  unfoldable pub verify_webhook : VerifyWebhookInput → Result (VerifiedWebhook E)
  verify_webhook input =
      if length input.secret == 0
      then err secret_required
      else check_signature input (read_header input.headers signature_header)
