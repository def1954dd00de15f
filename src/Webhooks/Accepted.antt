-- ===== src/Webhooks/Accepted.antt =====
-- packages/listener/src/webhook-dispatcher.ts, packages/receiver/src and
-- packages/sdk/src/webhooks/index.ts: a delivery gets through.
use zettapay.Prelude.{
  ℕ, ◌+◌, ◌*◌, ◌^◌, ◌≤◌, ◌<◌, ◌≡◌, ◌≢◌, refl, true, false, not, ◌||◌, Option, none, some, [], ◌∷◌,
  Text, codes, ltb, ◌==◌, ◌===◌, length, if◌then◌else◌, to_lower_case, trim, arith, text_eq_refl,
  lower,
}
use zettapay.Prelude.Int.{pos, ◌-ℤ◌}
use zettapay.Prelude.Dict.{Dict, lookup}
use zettapay.Prelude.Numerals.{to_string, parse_int-to_string, trim-to_string, to_string-ne-nil}
use zettapay.Webhooks.Headers.{
  Hmac, is_hex, all_of, delivery_headers, in_lower_case, signature_header, timestamp_header,
  event_id_header, attempt_header,
}
use zettapay.Webhooks.Digits.{
  IsDigest, to_string-all_of, to_lower_case-IsHexDigit, trim-IsHexDigit, all_of-IsHexDigit,
  parse_timestamp_ms-to_string,
}
use zettapay.Webhooks.Receiver.{verify_signature, verified, max_age_ms}
use zettapay.Webhooks.Replay.{IsGenuine-verify_signature}
use zettapay.Webhooks.Server.{Options, ServerStats, input_of, envelope_of, handle_webhook}
use zettapay.Webhooks.Sdk

IsDigest-ne-nil : (s : Text) → IsDigest s → s ≢ []
IsDigest-ne-nil [] h = λ e. absurd (omega (arith, h.0))
IsDigest-ne-nil (c ∷ s) h = λ e. cc

is_blank : (s : Text) → s ≢ [] → (length s == 0) ≡ false
is_blank [] h = absurd (h refl)
is_blank (c ∷ s) h = ground arith

is_safe-lt : (n : ℕ) → n < 2 ^ 53 → ltb n (2 ^ 53) ≡ true
is_safe-lt n h = ground arith

module _ (hmac : Hmac) (secret event_id body : Text) (sent attempts : ℕ) where
  abbrev pub headers : Dict Text
  headers = in_lower_case (delivery_headers hmac secret sent event_id attempts body)

  header_signature : lookup (codes "x-zettapay-signature") headers ≡ some (hmac secret body)
  unfolding lookup delivery_headers to_lower_case lower ◌===◌
  header_signature = refl

  header_timestamp : lookup (codes "x-zettapay-timestamp") headers ≡ some (to_string sent)
  unfolding lookup delivery_headers to_lower_case lower ◌===◌
  header_timestamp = refl

  delivery-verified :
      (options : Options) (now : ℕ)
      → options.secret ≡ secret
      → IsDigest (hmac secret body)
      → 1000000000000 ≤ sent
      → sent ≤ now + 2 * 60000
      → now ≤ sent + max_age_ms options.max_age_seconds
      → verify_signature hmac (input_of options headers body now) ≡ verified (pos now -ℤ pos sent)
  delivery-verified options now same digest h started recent =
      IsGenuine-verify_signature hmac _ _ (record {
        signature = hmac secret body;
        raw = to_string sent;
        ts = sent;
        has_signature = header_signature;
        has_raw = header_timestamp;
        not_blank = IsDigest-ne-nil _ digest;
        raw_not_blank = to_string-ne-nil sent;
        is_time = parse_timestamp_ms-to_string sent h;
        recent = recent;
        started = started;
        signed = rw (trim-IsHexDigit _ digest.1, to_lower_case-IsHexDigit _ digest.1, same) refl;
        aged = refl;
      })

  -- A delivery of the dispatcher that reaches the receiver within its window, with the same secret,
  -- and whose body parses, is answered with 200, handed on with its envelope, and counted as one
  -- that passed.
  pub delivery_answered :
      {E : Type 0} (parse : Text → Option E) (options : Options) (stats : ServerStats) (now : ℕ)
      (envelope : Option E)
      → options.secret ≡ secret
      → IsDigest (hmac secret body)
      → 1000000000000 ≤ sent
      → sent ≤ now + 2 * 60000
      → now ≤ sent + max_age_ms options.max_age_seconds
      → envelope_of parse body ≡ some envelope
      → handle_webhook hmac parse options stats headers body now ≡ (
        record {
          status = 200;
          outcome = record {
            failure = none;
            envelope = envelope;
            age_ms = some (pos now -ℤ pos sent);
          };
        },
        record stats {
          requests_total = stats.requests_total + 1;
          requests_ok = stats.requests_ok + 1;
        },
      )
  unfolding handle_webhook
  delivery_answered parse options stats now envelope same digest h started recent parses =
      rw (delivery-verified options now same digest h started recent, parses) refl

  -- One header that is not blank, found under its name.
  shown :
      (value : Text)
      → value ≢ []
      → trim value ≡ value
      → (if not (Sdk.is_empty (trim value)) then some (trim value) else none) ≡ some value
  shown [] ne t = absurd (ne refl)
  shown (c ∷ s) ne t = rw t refl

  read_signature :
      IsDigest (hmac secret body)
      → Sdk.read_header headers signature_header ≡ some (hmac secret body)
  unfolding Sdk.read_header delivery_headers to_lower_case lower ◌===◌
  read_signature digest = shown _ (IsDigest-ne-nil _ digest) (trim-IsHexDigit _ digest.1)

  read_timestamp : Sdk.read_header headers timestamp_header ≡ some (to_string sent)
  unfolding Sdk.read_header delivery_headers to_lower_case lower ◌===◌
  read_timestamp = shown _ (to_string-ne-nil sent) (trim-to_string sent)

  read_event_id :
      event_id ≢ []
      → trim event_id ≡ event_id
      → Sdk.read_header headers event_id_header ≡ some event_id
  unfolding Sdk.read_header delivery_headers to_lower_case lower ◌===◌
  read_event_id ne t = shown _ ne t

  read_attempt : Sdk.read_header headers attempt_header ≡ some (to_string (attempts + 1))
  unfolding Sdk.read_header delivery_headers to_lower_case lower ◌===◌
  read_attempt = shown _ (to_string-ne-nil (attempts + 1)) (trim-to_string (attempts + 1))

  is_hex-IsDigest :
      IsDigest (hmac secret body)
      → (not (length (hmac secret body) == 64) || not (all_of is_hex (hmac secret body))) ≡ false
  is_hex-IsDigest digest = rw (digest.0, all_of-IsHexDigit _ digest.1) refl

  -- `verifyWebhook` takes a delivery of the dispatcher within its tolerance, and reads back the
  -- event, its id, the number of the attempt and the time at which it was sent, if the secret and
  -- the id are not empty, the id has no space at its ends, the signature is a hexadecimal digest of
  -- 64 lower-case digits, the time is below 2 ^ 53, and the body parses to an object with an event.
  pub verify_webhook-delivery_headers :
      {E : Type 0} (parse : Text → Option (Sdk.Json E)) (event : E) (now : ℕ)
      (tolerance : Sdk.Tolerance)
      → IsDigest (hmac secret body)
      → secret ≢ []
      → event_id ≢ []
      → trim event_id ≡ event_id
      → sent < 2 ^ 53
      → Sdk.is_outside tolerance now sent ≡ false
      → parse body ≡ some (Sdk.event_object event)
      → Sdk.verify_webhook hmac parse (record {
        raw_body = body;
        headers = headers;
        secret = secret;
        tolerance_ms = tolerance;
        now = now;
      })
        ≡ Sdk.ok (record {
          event = event;
          event_id = some event_id;
          attempt = some (attempts + 1);
          timestamp_ms = sent;
        })
  unfolding Sdk.verify_webhook
  verify_webhook-delivery_headers parse event now tolerance digest has_secret has_id id_trimmed safe
        inside parses =
      rw
        (
          is_blank secret has_secret,
          read_signature digest,
          is_hex-IsDigest digest,
          to_lower_case-IsHexDigit _ digest.1,
          text_eq_refl (hmac secret body),
          read_timestamp,
          to_string-all_of sent,
          parse_int-to_string sent,
          is_safe-lt sent safe,
          inside,
          parses,
          read_event_id has_id id_trimmed,
          read_attempt,
          to_string-all_of (attempts + 1),
          parse_int-to_string (attempts + 1),
        )
        refl
