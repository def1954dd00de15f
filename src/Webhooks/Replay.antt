-- ===== src/Webhooks/Replay.antt =====
-- packages/receiver/src/hmac.ts: what `verifySignature` takes, and the timestamp, which the
-- signature does not cover.
use zettapay.Prelude.{
  ℕ, ◌+◌, ◌*◌, ◌≤◌, ◌≡◌, ◌≢◌, refl, Option, none, some, [], ◌∷◌, Text, to_lower_case, trim, arith,
  text_eq_iff,
}
use zettapay.Prelude.Int.{ℤ, pos, ◌-ℤ◌}
use zettapay.Prelude.Numerals.{to_string, to_string-ne-nil}
use zettapay.Webhooks.Headers.{Hmac}
use zettapay.Webhooks.Digits.{parse_timestamp_ms-to_string}
use zettapay.Webhooks.Receiver.{
  SignatureVerifyInput, verified, check_signature, check_timestamp, check_age, verify_signature,
  parse_timestamp_ms, timing_safe_equal_hex, compute_signature, max_age_ms,
}

module _ (hmac : Hmac) where
  -- The signature is that of the body, and the time lies in the window.
  pub record IsGenuine (input : SignatureVerifyInput) (age : ℤ) : Type 0 where
    pub signature : Text
    pub raw : Text
    pub ts : ℕ
    pub has_signature : input.signature_header ≡ some signature
    pub has_raw : input.timestamp_header ≡ some raw
    pub not_blank : signature ≢ []
    pub raw_not_blank : raw ≢ []
    pub is_time : parse_timestamp_ms raw ≡ some ts
    pub recent : input.now ≤ ts + max_age_ms input.max_age_seconds
    pub started : ts ≤ input.now + 2 * 60000
    pub signed : to_lower_case (trim signature) ≡ hmac input.secret input.body
    pub aged : age ≡ pos input.now -ℤ pos ts

  module _ (input : SignatureVerifyInput) (age : ℤ) where
    check_age-IsGenuine :
        (signature raw : Text)
        → input.signature_header ≡ some signature
        → input.timestamp_header ≡ some raw
        → signature ≢ []
        → raw ≢ []
        → (o : Option ℕ) → parse_timestamp_ms raw ≡ o
        → check_age hmac input signature o ≡ verified age
        → IsGenuine input age
    unfolding timing_safe_equal_hex compute_signature
    check_age-IsGenuine signature raw hs hr ns nr none t e = absurd (cc)
    check_age-IsGenuine signature raw hs hr ns nr (some ts) t e = record {
      signature = signature;
      raw = raw;
      ts = ts;
      has_signature = hs;
      has_raw = hr;
      not_blank = ns;
      raw_not_blank = nr;
      is_time = t;
      recent = ground arith;
      started = ground arith;
      signed =
          ground
            (arith, text_eq_iff (hmac input.secret input.body) (to_lower_case (trim signature)));
      aged = ground arith;
    }

    check_timestamp-IsGenuine :
        (signature : Text) (o : Option Text)
        → input.signature_header ≡ some signature
        → signature ≢ []
        → input.timestamp_header ≡ o
        → check_timestamp hmac input signature o ≡ verified age
        → IsGenuine input age
    check_timestamp-IsGenuine signature none hs ns hr e = absurd (cc)
    check_timestamp-IsGenuine signature (some []) hs ns hr e = absurd (cc)
    check_timestamp-IsGenuine signature (some (c ∷ raw)) hs ns hr e =
        check_age-IsGenuine signature (c ∷ raw) hs hr ns (λ q. cc) _ refl e

    check_signature-IsGenuine :
        (o : Option Text)
        → input.signature_header ≡ o
        → check_signature hmac input o ≡ verified age
        → IsGenuine input age
    check_signature-IsGenuine none hs e = absurd (cc)
    check_signature-IsGenuine (some []) hs e = absurd (cc)
    check_signature-IsGenuine (some (c ∷ s)) hs e =
        check_timestamp-IsGenuine (c ∷ s) _ hs (λ q. cc) refl e

    pub verify_signature-IsGenuine :
        verify_signature hmac input ≡ verified age → IsGenuine input age
    unfolding verify_signature
    verify_signature-IsGenuine e = check_signature-IsGenuine _ refl e

  check_signature-header :
      (input : SignatureVerifyInput) (s : Text)
      → s ≢ []
      → check_signature hmac input (some s) ≡ check_timestamp hmac input s input.timestamp_header
  check_signature-header input [] ne = absurd (ne refl)
  check_signature-header input (c ∷ s) ne = refl

  check_timestamp-header :
      (input : SignatureVerifyInput) (s raw : Text)
      → raw ≢ []
      → check_timestamp hmac input s (some raw) ≡ check_age hmac input s (parse_timestamp_ms raw)
  check_timestamp-header input s [] ne = absurd (ne refl)
  check_timestamp-header input s (c ∷ raw) ne = refl

  check_age-verified :
      (input : SignatureVerifyInput) (s : Text) (ts : ℕ)
      → input.now ≤ ts + max_age_ms input.max_age_seconds
      → ts ≤ input.now + 2 * 60000
      → to_lower_case (trim s) ≡ hmac input.secret input.body
      → check_age hmac input s (some ts) ≡ verified (pos input.now -ℤ pos ts)
  unfolding timing_safe_equal_hex compute_signature
  check_age-verified input s ts recent started signed =
      ground (arith, text_eq_iff (hmac input.secret input.body) (to_lower_case (trim s)))

  pub IsGenuine-verify_signature :
      (input : SignatureVerifyInput) (age : ℤ)
      → IsGenuine input age
      → verify_signature hmac input ≡ verified age
  unfolding verify_signature
  IsGenuine-verify_signature input age g =
      rw
        (
          g.has_signature,
          check_signature-header input g.signature g.not_blank,
          g.has_raw,
          check_timestamp-header input g.signature g.raw g.raw_not_blank,
          g.is_time,
          g.aged,
        )
        (check_age-verified input g.signature g.ts g.recent g.started g.signed)

  -- A delivery that was taken once is taken at any later time, under a fresh timestamp, which needs
  -- no secret.
  pub replay_accepted :
      (input : SignatureVerifyInput) (age : ℤ) (later : ℕ)
      → verify_signature hmac input ≡ verified age
      → 1000000000000 ≤ later
      → verify_signature hmac
          (record input { timestamp_header = some (to_string later); now = later })
        ≡ verified (pos later -ℤ pos later)
  replay_accepted input age later e h =
      let g = verify_signature-IsGenuine input age e in
      IsGenuine-verify_signature _ _ (record {
        signature = g.signature;
        raw = to_string later;
        ts = later;
        has_signature = g.has_signature;
        has_raw = refl;
        not_blank = g.not_blank;
        raw_not_blank = to_string-ne-nil later;
        is_time = parse_timestamp_ms-to_string later h;
        recent = omega arith;
        started = omega arith;
        signed = g.signed;
        aged = refl;
      })
