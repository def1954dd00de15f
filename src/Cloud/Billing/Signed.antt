-- ===== src/Cloud/Billing/Signed.antt =====
-- packages/cloud/src/billing.ts: the headers that `verifyStripeSignature` takes.
use zettapay.Prelude.{
  ℕ, ◌≡◌, ◌≢◌, refl, ap, ◌∙◌, not, ◌&&◌, Option, some, List, [], ◌∷◌, ◌++◌, Text, codes, ◌===◌,
  split, elem, All, IsUnsplit, split-IsUnsplit, split-append, append-nil, append_assoc, map,
  Bool-cases, inl, inr,
}
use zettapay.Cloud.Billing.Signature.{
  Parts, add_entry, add_part, add_parts, parts_of, is_stale, check_parts, with_secret,
  verify_stripe_signature,
}

-- A value of a header: not empty, and free of `,` and `=`.
abbrev pub IsValue : Text → Type 0
IsValue s = (s ≢ []) × IsUnsplit b',' s × IsUnsplit b'=' s

abbrev pub entry : Text → Text
entry s = codes "v1" ++ b'=' ∷ s

abbrev pub rest : List Text → Text
rest [] = []
rest (s ∷ sigs) = b',' ∷ (entry s ++ rest sigs)

-- What Stripe sends: the timestamp, and a signature for each secret in use.
abbrev pub stripe_header : Text → List Text → Text
stripe_header timestamp sigs = (codes "t" ++ b'=' ∷ timestamp) ++ rest sigs

split-rest :
    (x : Text) (sigs : List Text)
    → IsUnsplit b',' x
    → All IsValue sigs
    → split b',' (x ++ rest sigs) ≡ x ∷ map entry sigs
split-rest x [] h k = rw append-nil (split-IsUnsplit b',' x h)
split-rest x (s ∷ sigs) h k =
    rw
      (
        split-append b',' x (entry s ++ rest sigs) h,
        split-rest (entry s) sigs (refl, (refl, (refl, k.0.1))) k.1,
      )
      refl

add_entry-v1 :
    (s : Text) (p : Parts)
    → s ≢ []
    → add_entry (codes "v1") s p ≡ record p { signatures = p.signatures ++ s ∷ [] }
unfolding ◌===◌
add_entry-v1 [] p h = absurd (h refl)
add_entry-v1 (c ∷ s) p h = refl

add_entry-t :
    (s : Text) (p : Parts) → s ≢ [] → add_entry (codes "t") s p ≡ record p { timestamp = s }
unfolding ◌===◌
add_entry-t [] p h = absurd (h refl)
add_entry-t (c ∷ s) p h = refl

add_part-entry :
    (s : Text) (p : Parts)
    → IsValue s
    → add_part (split b'=' (entry s)) p ≡ record p { signatures = p.signatures ++ s ∷ [] }
add_part-entry s p h =
    ap (λ parts. add_part parts p)
      (split-append b'=' (codes "v1") s (refl, (refl, tt))
        ∙ ap (λ parts. codes "v1" ∷ parts) (split-IsUnsplit b'=' s h.2))
    ∙ add_entry-v1 s p h.0

add_part-timestamp :
    (s : Text) (p : Parts)
    → IsValue s
    → add_part (split b'=' (codes "t" ++ b'=' ∷ s)) p ≡ record p { timestamp = s }
add_part-timestamp s p h =
    ap (λ parts. add_part parts p)
      (split-append b'=' (codes "t") s (refl, tt)
        ∙ ap (λ parts. codes "t" ∷ parts) (split-IsUnsplit b'=' s h.2))
    ∙ add_entry-t s p h.0

add_parts-entries :
    (sigs : List Text) (p : Parts)
    → All IsValue sigs
    → add_parts (map entry sigs) p ≡ record p { signatures = p.signatures ++ sigs }
add_parts-entries [] p h = rw append-nil refl
add_parts-entries (s ∷ sigs) p h =
    ap (add_parts (map entry sigs)) (add_part-entry s p h.0)
    ∙ add_parts-entries sigs (record p { signatures = p.signatures ++ s ∷ [] }) h.1
    ∙ ap (λ all. record p { signatures = all }) (append_assoc p.signatures (s ∷ []) sigs)

parts_of-stripe_header :
    (timestamp : Text) (sigs : List Text)
    → IsValue timestamp
    → All IsValue sigs
    → parts_of (stripe_header timestamp sigs) ≡ record { timestamp = timestamp; signatures = sigs }
parts_of-stripe_header timestamp sigs h k =
    let empty : Parts = record { timestamp = []; signatures = [] } in
    ap (λ parts. add_parts parts empty)
      (split-rest (codes "t" ++ b'=' ∷ timestamp) sigs (refl, (refl, h.1)) k)
    ∙ ap (add_parts (map entry sigs)) (add_part-timestamp timestamp empty h)
    ∙ add_parts-entries sigs (record empty { timestamp = timestamp }) k

with_secret-filled :
    (hmac : Text → Text → Text) (seconds : Text → Option ℕ) (now : ℕ)
    (raw_body header secret : Text)
    → secret ≢ []
    → with_secret hmac seconds now raw_body header (some secret)
      ≡ check_parts hmac seconds now secret raw_body (parts_of header)
with_secret-filled hmac seconds now raw_body header [] h = absurd (h refl)
with_secret-filled hmac seconds now raw_body header (c ∷ secret) h = refl

-- A header with a timestamp and any number of signatures is taken exactly if the timestamp is at
-- most 300 seconds away and one of the signatures is that of the timestamp and the body, if the
-- secret is not empty.
pub verify_stripe_signature-stripe_header :
    (hmac : Text → Text → Text) (seconds : Text → Option ℕ) (now : ℕ) (secret raw_body : Text)
    (timestamp : Text) (sigs : List Text)
    → secret ≢ []
    → IsValue timestamp
    → All IsValue sigs
    → verify_stripe_signature hmac seconds now
        (some secret)
        raw_body
        (some (stripe_header timestamp sigs))
      ≡ (not (is_stale now (seconds timestamp))
          && elem (hmac secret (timestamp ++ b'.' ∷ raw_body)) sigs)
unfolding verify_stripe_signature
verify_stripe_signature-stripe_header hmac seconds now secret raw_body timestamp sigs filled h k =
    rw
      (
        with_secret-filled hmac seconds now raw_body (stripe_header timestamp sigs) secret filled,
        parts_of-stripe_header timestamp sigs h k,
      )
      (elim (Bool-cases (is_stale now (seconds timestamp))) [
        | inl stale ↦ rw stale refl
        | inr fresh ↦ rw fresh refl
      ])
