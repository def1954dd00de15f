-- ===== src/Webhooks/Tests.antt =====
-- Runs of the webhook code at concrete deliveries. The stand-in for an HMAC tells secrets apart by
-- their first letter.
use zettapay.Prelude.{
  ℕ, ◌+◌, ◌≡◌, refl, none, some, [], ◌∷◌, Text, codes, replicate, arith, trim, zero, suc, All,
  if◌then◌else◌, ◌===◌, to_lower_case, lower, leb, ◌&&◌,
}
use zettapay.Prelude.Int.{pos, ◌-ℤ◌}
use zettapay.Prelude.Numerals.{to_string}
use zettapay.Webhooks.Headers.{Hmac}
use zettapay.Webhooks.Receiver.{
  SignatureVerifyInput, verified, rejected, invalid_signature, verify_signature, parse_timestamp_ms,
  timing_safe_equal_hex, compute_signature,
}
use zettapay.Webhooks.Server.{Options, ServerStats, handle_webhook}
use zettapay.Webhooks.Sdk
use zettapay.Webhooks.Digits.{IsDigest, IsHexDigit}
use zettapay.Webhooks.Accepted.{headers, delivery_answered, verify_webhook-delivery_headers}
use zettapay.Webhooks.Replay.{replay_accepted}

abbrev stand_in : Hmac
stand_in [] body = replicate 64 b'0'
stand_in (c ∷ secret) body = replicate 64 (if leb b'a' c && leb c b'f' then c else b'1')

abbrev secret : Text
secret = codes "abc"

abbrev body : Text
body = codes "{}"

abbrev sent : ℕ
sent = 1700000000000

replicate-IsHexDigit : (n c : ℕ) → IsHexDigit c → All IsHexDigit (replicate n c)
replicate-IsHexDigit zero c h = tt
replicate-IsHexDigit (suc n) c h = (h, replicate-IsHexDigit n c h)

digest : IsDigest (stand_in secret body)
digest = (refl, replicate-IsHexDigit 64 b'a' refl)

abbrev options : Options
options = record { secret = secret; max_age_seconds = none }

abbrev no_requests : ServerStats
no_requests = record { requests_total = 0; requests_ok = 0; requests_failed = 0 }

delivery_answered_example :
    handle_webhook stand_in
      (λ s. some s)
      options
      no_requests
      (headers stand_in secret (codes "evt") body sent 0)
      body
      (sent + 1000)
    ≡ (
      record {
        status = 200;
        outcome = record {
          failure = none;
          envelope = some body;
          age_ms = some (pos (sent + 1000) -ℤ pos sent);
        };
      },
      record { requests_total = 1; requests_ok = 1; requests_failed = 0 },
    )
delivery_answered_example =
    delivery_answered stand_in secret (codes "evt") body sent 0 (λ s. some s) options no_requests
      (sent + 1000) (some body) refl digest (omega arith) (omega arith) (omega arith) refl

evt_trimmed : trim (codes "evt") ≡ codes "evt"
unfolding trim
evt_trimmed = refl

verify_webhook-delivery_headers_example :
    Sdk.verify_webhook stand_in
      (λ s. some (Sdk.event_object s))
      (record {
        raw_body = body;
        headers = headers stand_in secret (codes "evt") body sent 2;
        secret = secret;
        tolerance_ms = Sdk.five_minutes;
        now = sent + 1000;
      })
    ≡ Sdk.ok (record {
      event = body;
      event_id = some (codes "evt");
      attempt = some 3;
      timestamp_ms = sent;
    })
verify_webhook-delivery_headers_example =
    verify_webhook-delivery_headers stand_in secret (codes "evt") body sent 2
      (λ s. some (Sdk.event_object s)) body (sent + 1000) Sdk.five_minutes digest (λ e. cc)
      (λ e. cc) evt_trimmed (omega arith) refl refl

abbrev captured : SignatureVerifyInput
captured = record {
  body = body;
  signature_header = some (stand_in secret body);
  timestamp_header = some (to_string sent);
  secret = secret;
  now = sent;
  max_age_seconds = none;
}

captured_verified : verify_signature stand_in captured ≡ verified (pos sent -ℤ pos sent)
unfolding verify_signature parse_timestamp_ms timing_safe_equal_hex compute_signature to_lower_case
    lower ◌===◌ trim to_string
captured_verified = refl

-- A year later.
replay_accepted_example :
    verify_signature stand_in (record captured {
      timestamp_header = some (to_string (sent + 31536000000));
      now = sent + 31536000000;
    })
    ≡ verified (pos (sent + 31536000000) -ℤ pos (sent + 31536000000))
replay_accepted_example =
    replay_accepted stand_in captured (pos sent -ℤ pos sent) (sent + 31536000000) captured_verified
      (omega arith)

other_secret_rejected :
    verify_signature stand_in (record captured { secret = codes "bcd" })
    ≡ rejected invalid_signature (some (pos sent -ℤ pos sent))
unfolding verify_signature parse_timestamp_ms timing_safe_equal_hex compute_signature to_lower_case
    lower ◌===◌ trim to_string
other_secret_rejected = refl
