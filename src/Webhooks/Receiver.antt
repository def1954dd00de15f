-- ===== src/Webhooks/Receiver.antt =====
-- packages/receiver/src/hmac.ts: `verifySignature`. A timestamp too long for a number is far in the
-- future, so it gets the same answer whether it is read exactly or not.
use zettapay.Prelude.{
  ℕ, ◌+◌, ◌*◌, Bool, not, Option, none, some, [], ◌∷◌, Text, ltb, ◌===◌, if◌then◌else◌, trim,
  to_lower_case,
}
use zettapay.Prelude.Int.{ℤ, pos, ◌-ℤ◌}
use zettapay.Prelude.Numerals.{parse_int}
use zettapay.Webhooks.Headers.{Hmac, is_digit, all_of}

abbrev pub default_max_age_seconds : ℕ
default_max_age_seconds = 300

pub data Reason : Type 0 where
  missing_signature missing_timestamp bad_timestamp timestamp_too_old invalid_signature : Reason

-- With the age of the delivery, where the source says it.
pub data SignatureVerifyResult : Type 0 where
  verified : ℤ → SignatureVerifyResult
  rejected : Reason → Option ℤ → SignatureVerifyResult

pub record SignatureVerifyInput : Type 0 where
  pub body : Text
  pub signature_header : Option Text
  pub timestamp_header : Option Text
  pub secret : Text
  pub now : ℕ
  pub max_age_seconds : Option ℕ

abbrev pub to_ms : ℕ → ℕ
to_ms n = if ltb n 1000000000000 then n * 1000 else n

abbrev pub parse_trimmed : Text → Option ℕ
parse_trimmed [] = none
parse_trimmed (c ∷ s) = if all_of is_digit (c ∷ s) then some (to_ms (parse_int 0 (c ∷ s))) else none

unfoldable pub parse_timestamp_ms : Text → Option ℕ
parse_timestamp_ms raw = parse_trimmed (trim raw)

abbrev pub max_age_ms : Option ℕ → ℕ
max_age_ms none = default_max_age_seconds * 1000
max_age_ms (some seconds) = seconds * 1000

module _ (hmac : Hmac) where
  unfoldable pub compute_signature : Text → Text → Text
  compute_signature secret body = hmac secret body

  -- Two buffers are compared byte by byte.
  unfoldable pub timing_safe_equal_hex : Text → Text → Bool
  timing_safe_equal_hex a b = a === b

  -- From the timestamp on. `now - ts` is above the maximal age, or below minus two minutes.
  abbrev pub check_age : SignatureVerifyInput → Text → Option ℕ → SignatureVerifyResult
  check_age input signature none = rejected bad_timestamp none
  check_age input signature (some ts) =
      let age = pos input.now -ℤ pos ts in
      if ltb (ts + max_age_ms input.max_age_seconds) input.now
      then rejected timestamp_too_old (some age)
      else if ltb (input.now + 2 * 60000) ts
      then rejected bad_timestamp none
      else if not (
          timing_safe_equal_hex (compute_signature input.secret input.body)
            (to_lower_case (trim signature)))
      then rejected invalid_signature (some age)
      else verified age

  abbrev pub check_timestamp : SignatureVerifyInput → Text → Option Text → SignatureVerifyResult
  check_timestamp input signature none = rejected missing_timestamp none
  check_timestamp input signature (some []) = rejected missing_timestamp none
  check_timestamp input signature (some (c ∷ raw)) =
      check_age input signature (parse_timestamp_ms (c ∷ raw))

  abbrev pub check_signature : SignatureVerifyInput → Option Text → SignatureVerifyResult
  check_signature input none = rejected missing_signature none
  check_signature input (some []) = rejected missing_signature none
  check_signature input (some (c ∷ signature)) =
      check_timestamp input (c ∷ signature) input.timestamp_header

  unfoldable pub verify_signature : SignatureVerifyInput → SignatureVerifyResult
  verify_signature input = check_signature input input.signature_header
