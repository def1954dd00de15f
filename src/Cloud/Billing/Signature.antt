-- ===== src/Cloud/Billing/Signature.antt =====
-- packages/cloud/src/billing.ts: `verifyStripeSignature`. `seconds` stands for `Number`: the whole
-- seconds that a timestamp says, or `none` for what is no number. `hmac secret s` is in hexadecimal.
use zettapay.Prelude.{
  ℕ, ◌+◌, ◌*◌, Bool, true, false, ◌||◌, Option, none, some, List, [], ◌∷◌, ◌++◌, Text, codes, ◌===◌,
  ltb, if◌then◌else◌, split, elem,
}
use zettapay.Cloud.Billing.{stripe_signature_tolerance_s}

-- The timestamp and the signatures that the parts give; the last timestamp counts.
pub record Parts : Type 0 where
  pub timestamp : Text
  pub signatures : List Text

-- `k === 't' && v`, `k === 'v1' && v`
abbrev pub add_entry : Text → Text → Parts → Parts
add_entry k [] p = p
add_entry k (c ∷ v) p =
    if k === codes "t"
    then record p { timestamp = c ∷ v }
    else if k === codes "v1"
    then record p { signatures = p.signatures ++ (c ∷ v) ∷ [] }
    else p

-- What stands behind a second `=` is dropped.
abbrev pub add_part : List Text → Parts → Parts
add_part [] p = p
add_part (k ∷ []) p = p
add_part (k ∷ v ∷ more) p = add_entry k v p

abbrev pub add_parts : List Text → Parts → Parts
add_parts [] p = p
add_parts (part ∷ parts) p = add_parts parts (add_part (split b'=' part) p)

abbrev pub parts_of : Text → Parts
parts_of header = add_parts (split b',' header) (record { timestamp = []; signatures = [] })

-- `Math.abs(now / 1000 - ts) > tolerance`, with the clock in milliseconds. A timestamp is a whole
-- number of seconds, as Stripe sends it, or none; a fraction, which the code would take, is left out.
abbrev pub is_stale : ℕ → Option ℕ → Bool
is_stale now none = true
is_stale now (some ts) =
    ltb (ts * 1000 + stripe_signature_tolerance_s * 1000) now
    || ltb (now + stripe_signature_tolerance_s * 1000) (ts * 1000)

module _ (hmac : Text → Text → Text) (seconds : Text → Option ℕ) where
  abbrev pub check_parts : ℕ → Text → Text → Parts → Bool
  check_parts now secret raw_body p =
      if is_stale now (seconds p.timestamp)
      then false
      else elem (hmac secret (p.timestamp ++ b'.' ∷ raw_body)) p.signatures

  abbrev pub with_secret : ℕ → Text → Text → Option Text → Bool
  with_secret now raw_body header none = false
  with_secret now raw_body header (some []) = false
  with_secret now raw_body header (some (c ∷ secret)) =
      check_parts now (c ∷ secret) raw_body (parts_of header)

  abbrev pub with_header : ℕ → Text → Option Text → Option Text → Bool
  with_header now raw_body secret none = false
  with_header now raw_body secret (some []) = false
  with_header now raw_body secret (some (c ∷ header)) = with_secret now raw_body (c ∷ header) secret

  unfoldable pub verify_stripe_signature : ℕ → Option Text → Text → Option Text → Bool
  verify_stripe_signature now secret raw_body header = with_header now raw_body secret header
