-- ===== src/Webhooks/Server.antt =====
-- packages/receiver/src/server.ts: `handleWebhook`, which answers a delivery. `JSON.parse` is a
-- parameter, and what it returns is handed to the callback as it is. Log lines are left out.
use zettapay.Prelude.{ℕ, ◌+◌, Option, none, some, [], ◌∷◌, Text, codes}
use zettapay.Prelude.Int.{ℤ}
use zettapay.Prelude.Dict.{Dict, lookup}
use zettapay.Webhooks.Headers.{Hmac}
use zettapay.Webhooks.Receiver.{
  Reason, missing_signature, missing_timestamp, bad_timestamp, timestamp_too_old, invalid_signature,
  SignatureVerifyResult, verified, rejected, SignatureVerifyInput, verify_signature,
}

pub record ServerStats : Type 0 where
  pub requests_total : ℕ
  pub requests_ok : ℕ
  pub requests_failed : ℕ

-- Why a delivery is refused.
pub data Failure : Type 0 where
  reason : Reason → Failure
  malformed_body : Failure

-- What the callback is given, less the body and the times; `none` for an envelope that is `null`.
pub record WebhookOutcome (E : Type 0) : Type 0 where
  pub failure : Option Failure
  pub envelope : Option E
  pub age_ms : Option ℤ

pub record Answer (E : Type 0) : Type 0 where
  pub status : ℕ
  pub outcome : WebhookOutcome E

pub record Options : Type 0 where
  pub secret : Text
  pub max_age_seconds : Option ℕ

abbrev pub status_of : Reason → ℕ
status_of invalid_signature = 401
status_of timestamp_too_old = 401
status_of missing_signature = 400
status_of missing_timestamp = 400
status_of bad_timestamp = 400

abbrev pub passed : ServerStats → ServerStats
passed s = record s { requests_total = s.requests_total + 1; requests_ok = s.requests_ok + 1 }

abbrev pub refused : ServerStats → ServerStats
refused s = record s {
  requests_total = s.requests_total + 1;
  requests_failed = s.requests_failed + 1;
}

-- The body as JSON: `none` is a body that does not parse, and an empty one is not parsed.
abbrev pub envelope_of : {E : Type 0} → (Text → Option E) → Text → Option (Option E)
envelope_of parse [] = some none
envelope_of {E} parse (c ∷ body) = elim (parse (c ∷ body)) [
  | none ↦ none
  | some envelope ↦ some (some envelope)
]

abbrev pub or_null : {E : Type 0} → Option (Option E) → Option E
or_null none = none
or_null (some envelope) = envelope

abbrev pub input_of : Options → Dict Text → Text → ℕ → SignatureVerifyInput
input_of options headers body now = record {
  body = body;
  signature_header = lookup (codes "x-zettapay-signature") headers;
  timestamp_header = lookup (codes "x-zettapay-timestamp") headers;
  secret = options.secret;
  now = now;
  max_age_seconds = options.max_age_seconds;
}

module _ {E : Type 0} (hmac : Hmac) (parse : Text → Option E) where
  abbrev pub answer :
      ServerStats → Option (Option E) → SignatureVerifyResult → Answer E × ServerStats
  answer stats envelope (rejected why age) = (
    record {
      status = status_of why;
      outcome = record { failure = some (reason why); envelope = or_null envelope; age_ms = age };
    },
    refused stats,
  )
  answer stats none (verified age) = (
    record {
      status = 400;
      outcome = record { failure = some malformed_body; envelope = none; age_ms = some age };
    },
    refused stats,
  )
  answer stats (some envelope) (verified age) = (
    record {
      status = 200;
      outcome = record { failure = none; envelope = envelope; age_ms = some age };
    },
    passed stats,
  )

  unfoldable pub handle_webhook :
      Options → ServerStats → Dict Text → Text → ℕ → Answer E × ServerStats
  handle_webhook options stats headers body now =
      answer stats (envelope_of parse body)
        (verify_signature hmac (input_of options headers body now))
