-- ===== src/Webhooks/Headers.antt =====
-- packages/listener/src/webhook-dispatcher.ts: the headers of a delivery. `hmac secret body` is the
-- HMAC-SHA256 of the body, in hexadecimal. A body is the text of `payload_json`.
use zettapay.Prelude.{ℕ, ◌+◌, Bool, true, ◌&&◌, ◌||◌, [], ◌∷◌, Text, codes, map, leb, to_lower_case}
use zettapay.Prelude.Dict.{Dict}
use zettapay.Prelude.Numerals.{to_string}

abbrev pub signature_header : Text
signature_header = codes "X-ZettaPay-Signature"

abbrev pub timestamp_header : Text
timestamp_header = codes "X-ZettaPay-Timestamp"

abbrev pub event_id_header : Text
event_id_header = codes "X-ZettaPay-Event-Id"

abbrev pub attempt_header : Text
attempt_header = codes "X-ZettaPay-Attempt"

abbrev pub Hmac : Type 0
Hmac = Text → Text → Text

-- The headers of the attempt after `attempts` others, sent at `now`.
unfoldable pub delivery_headers : Hmac → Text → ℕ → Text → ℕ → Text → Dict Text
delivery_headers hmac secret now event_id attempts body =
    (codes "content-type", codes "application/json")
    ∷ (codes "accept", codes "application/json")
    ∷ (signature_header, hmac secret body)
    ∷ (timestamp_header, to_string now)
    ∷ (event_id_header, event_id)
    ∷ (attempt_header, to_string (attempts + 1))
    ∷ []

-- A server is handed the names of headers in lower case.
abbrev pub in_lower_case : Dict Text → Dict Text
in_lower_case = map (λ (entry : Text × Text). (to_lower_case entry.0, entry.1))

-- `/^\d+$/` and `/^[0-9a-f]+$/i`, less the test that the text is not empty.
abbrev pub is_digit : ℕ → Bool
is_digit c = leb b'0' c && leb c b'9'

abbrev pub is_hex : ℕ → Bool
is_hex c = is_digit c || (leb b'a' c && leb c b'f') || (leb b'A' c && leb c b'F')

abbrev pub all_of : (ℕ → Bool) → Text → Bool
all_of p [] = true
all_of p (c ∷ s) = p c && all_of p s
