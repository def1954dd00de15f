-- ===== src/Prelude/Numerals.antt =====
-- Numerals: `BigInt` of a text, and `toString` of a number. A signed literal is not read: no text
-- that the program writes has a sign.
use Prim.Native.Nat.{ℕ, zero, suc, ◌+◌, ◌-◌, ◌*◌, ◌/◌, ◌%◌, ◌≤◌, ◌<◌}
use mathlib.Core.Path.{◌≡◌}
use mathlib.Core.Logic.{◌≢◌}
use mathlib.Core.Bool.{true, false, ◌&&◌}
use mathlib.Core.Option.{Option, none, some}
use mathlib.Core.List.{[], ◌∷◌}
use native.Mathlib.Omega.{arith}
use zettapay.Prelude.Tests.{leb, ltb, ◌==◌, if◌then◌else◌}
use zettapay.Prelude.Texts.{Text, trim, IsInk, trim-IsInk, graphic-IsInk}
use zettapay.Prelude.Lists.{All}

-- The value of a digit in a base up to 16.
unfoldable pub digit_value : ℕ → Option ℕ
digit_value c =
    if leb b'0' c && leb c b'9'
    then some (c - b'0')
    else if leb b'a' c && leb c b'f'
    then some (c - b'a' + 10)
    else if leb b'A' c && leb c b'F'
    then some (c - b'A' + 10)
    else none

read_digits : ℕ → ℕ → Text → Option ℕ
read_digits base acc [] = some acc
read_digits base acc (c ∷ s) = elim (digit_value c) [
  | none ↦ none
  | some d ↦ if ltb d base then read_digits base (acc * base + d) s else none
]

-- The digits behind a prefix: at least one.
read_some : ℕ → Text → Option ℕ
read_some base [] = none
read_some base (c ∷ s) = read_digits base 0 (c ∷ s)

-- The literal with no white space around it.
literal : Text → Option ℕ
literal [] = some 0
literal (c ∷ []) = read_some 10 (c ∷ [])
literal (c ∷ x ∷ s) =
    if c == b'0' && (x == b'x')
    then read_some 16 s
    else if c == b'0' && (x == b'X')
    then read_some 16 s
    else if c == b'0' && (x == b'o')
    then read_some 8 s
    else if c == b'0' && (x == b'b')
    then read_some 2 s
    else read_some 10 (c ∷ x ∷ s)

-- `BigInt(text)`; `none` is the SyntaxError that it throws.
unfoldable pub big_int : Text → Option ℕ
unfolding literal read_some read_digits digit_value trim
big_int s = literal (trim s)

-- The digits of `n` in front of `s`; the fuel only has to exceed `n`.
show : ℕ → ℕ → Text → Text
show zero n s = s
show (suc f) n s = elim (ltb n 10) [
  | true ↦ (b'0' + n) ∷ s
  | false ↦ show f (n / 10) ((b'0' + n % 10) ∷ s)
]

-- `toString` of a natural number.
unfoldable pub to_string : ℕ → Text
unfolding show
to_string n = show (suc n) n []

abbrev pub IsDigit : ℕ → Type 0
IsDigit c = (b'0' ≤ c) × (c ≤ b'9')

show-IsDigit : (f n : ℕ) (s : Text) → All IsDigit s → All IsDigit (show f n s)
unfolding show
show-IsDigit zero n s h = h
show-IsDigit (suc f) n s h =
    ground (arith, show-IsDigit f (n / 10) ((b'0' + n % 10) ∷ s) ((omega arith, omega arith), h))

pub to_string-IsDigit : (n : ℕ) → All IsDigit (to_string n)
unfolding to_string
to_string-IsDigit n = show-IsDigit (suc n) n [] tt

-- Reading back what was shown, whatever follows it.
read_digits-show : (f n : ℕ) (s : Text) → n < f → read_digits 10 0 (show f n s) ≡ read_digits 10 n s
unfolding show read_digits digit_value
read_digits-show zero n s h = absurd (omega arith)
read_digits-show (suc f) n s h = ground (arith, read_digits-show f (n / 10) ((b'0' + n % 10) ∷ s))

digits-IsInk : (s : Text) → All IsDigit s → All IsInk s
digits-IsInk [] h = tt
digits-IsInk (c ∷ s) h = (graphic-IsInk c (omega arith), digits-IsInk s h.1)

literal-digits :
    (s : Text) (n : ℕ) → All IsDigit s → read_digits 10 0 s ≡ some n → literal s ≡ some n
unfolding literal read_some read_digits
literal-digits [] n h e = e
literal-digits (c ∷ []) n h e = e
literal-digits (c ∷ x ∷ s) n h e = ground arith

-- `BigInt` reads back what `toString` writes.
pub big_int-to_string : (n : ℕ) → big_int (to_string n) ≡ some n
unfolding big_int to_string
big_int-to_string n =
    let digits = show-IsDigit (suc n) n [] tt in
    rw (trim-IsInk _ (digits-IsInk _ digits))
      (literal-digits _ n digits (read_digits-show (suc n) n [] (omega arith)))

-- `Number` and `parseInt` of decimal digits, behind the value of those already read.
abbrev pub parse_int : ℕ → Text → ℕ
parse_int acc [] = acc
parse_int acc (c ∷ s) = parse_int (acc * 10 + (c - b'0')) s

parse_int-show : (f n : ℕ) (s : Text) → n < f → parse_int 0 (show f n s) ≡ parse_int n s
unfolding show
parse_int-show zero n s h = absurd (omega arith)
parse_int-show (suc f) n s h = ground (arith, parse_int-show f (n / 10) ((b'0' + n % 10) ∷ s))

pub parse_int-to_string : (n : ℕ) → parse_int 0 (to_string n) ≡ n
unfolding to_string
parse_int-to_string n = parse_int-show (suc n) n [] (omega arith)

-- A numeral is not empty, and has no white space.
show-ne-nil : (f n : ℕ) (c : ℕ) (s : Text) → show f n (c ∷ s) ≢ []
unfolding show
show-ne-nil zero n c s = λ e. cc
show-ne-nil (suc f) n c s = ground (arith, show-ne-nil f (n / 10) (b'0' + n % 10) (c ∷ s))

pub to_string-ne-nil : (n : ℕ) → to_string n ≢ []
unfolding to_string show
to_string-ne-nil n = ground (arith, show-ne-nil n (n / 10) (b'0' + n % 10) [])

pub trim-to_string : (n : ℕ) → trim (to_string n) ≡ to_string n
trim-to_string n = trim-IsInk _ (digits-IsInk _ (to_string-IsDigit n))
