-- ===== src/Webhooks/Digits.antt =====
-- What HMACs and timestamps look like as text, and that they are read back.
use zettapay.Prelude.{
  ℕ, ◌≤◌, ◌≡◌, ◌≢◌, refl, true, ◌&&◌, ◌||◌, some, [], ◌∷◌, Text, leb, length, to_lower_case, trim,
  arith, All, trim-IsInk, IsInk, graphic-IsInk,
}
use zettapay.Prelude.Numerals.{
  to_string, IsDigit, to_string-IsDigit, parse_int, parse_int-to_string, trim-to_string,
  to_string-ne-nil,
}
use zettapay.Webhooks.Headers.{is_digit, is_hex, all_of}
use zettapay.Webhooks.Receiver.{parse_timestamp_ms, parse_trimmed, to_ms}

-- What an HMAC in hexadecimal looks like: 64 digits, the letters in lower case.
abbrev pub IsHexDigit : ℕ → Type 0
IsHexDigit c = (is_digit c || (leb b'a' c && leb c b'f')) ≡ true

abbrev pub IsDigest : Text → Type 0
IsDigest s = (length s ≡ 64) × All IsHexDigit s

IsDigit-is_digit : (s : Text) → All IsDigit s → all_of is_digit s ≡ true
IsDigit-is_digit [] h = refl
IsDigit-is_digit (c ∷ s) h = ground (arith, IsDigit-is_digit s h.1)

pub to_string-all_of : (n : ℕ) → all_of is_digit (to_string n) ≡ true
to_string-all_of n = IsDigit-is_digit _ (to_string-IsDigit n)

pub to_lower_case-IsHexDigit : (s : Text) → All IsHexDigit s → to_lower_case s ≡ s
unfolding to_lower_case
to_lower_case-IsHexDigit [] h = refl
to_lower_case-IsHexDigit (c ∷ s) h = ground (arith, to_lower_case-IsHexDigit s h.1)

pub IsHexDigit-IsInk : (s : Text) → All IsHexDigit s → All IsInk s
IsHexDigit-IsInk [] h = tt
IsHexDigit-IsInk (c ∷ s) h = (graphic-IsInk c (ground arith), IsHexDigit-IsInk s h.1)

pub trim-IsHexDigit : (s : Text) → All IsHexDigit s → trim s ≡ s
trim-IsHexDigit s h = trim-IsInk s (IsHexDigit-IsInk s h)

pub all_of-IsHexDigit : (s : Text) → All IsHexDigit s → all_of is_hex s ≡ true
all_of-IsHexDigit [] h = refl
all_of-IsHexDigit (c ∷ s) h = ground (arith, all_of-IsHexDigit s h.1)

parse_trimmed-digits :
    (s : Text) → s ≢ [] → all_of is_digit s ≡ true → parse_trimmed s ≡ some (to_ms (parse_int 0 s))
parse_trimmed-digits [] ne h = absurd (ne refl)
parse_trimmed-digits (c ∷ s) ne h = rw h

-- A time in milliseconds of this millennium is read back.
pub parse_timestamp_ms-to_string :
    (n : ℕ) → 1000000000000 ≤ n → parse_timestamp_ms (to_string n) ≡ some n
unfolding parse_timestamp_ms
parse_timestamp_ms-to_string n h =
    rw
      (
        trim-to_string n,
        parse_trimmed-digits _ (to_string-ne-nil n) (to_string-all_of n),
        parse_int-to_string n,
      )
      (ground arith)
