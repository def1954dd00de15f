-- ===== src/Listener/Pricing.antt =====
-- packages/listener/src/usdc-pricing.ts, and the decimal rendering of amounts that
-- evm-amount-nonce.ts and invoice-core.ts repeat. Floating-point numbers are a parameter.
use zettapay.Prelude.{
  ℕ, ◌-◌, ◌/◌, ◌%◌, ◌^◌, Bool, not, ◌||◌, ◌∷◌, ◌++◌, Text, length, replicate, if◌then◌else◌, ◌==◌,
}
use mathlib.Core.List.{[], reverse}
use zettapay.Prelude.Numerals.{to_string}
use zettapay.Listener.Errors.{bad_usd, Result, ok, err}

-- The floating-point numbers: what the code asks of them. `round` is `Math.round` of a number
-- that is not negative, and its value is an integer below 2 ^ 53.
pub record Double : Type 1 where
  pub Number : Type 0
  pub is_finite : Number → Bool
  pub le_zero : Number → Bool
  pub times : Number → ℕ → Number
  pub round : Number → ℕ

abbrev pub usdc_decimals : ℕ
usdc_decimals = 6

abbrev pub usdc_units_per_usdc : ℕ
usdc_units_per_usdc = 10 ^ usdc_decimals

unfoldable pub usd_to_usdc : (d : Double) → d.Number → Result ℕ
usd_to_usdc d usd =
    if not (d.is_finite usd) || d.le_zero usd
    then err bad_usd
    else ok (d.round (d.times usd usdc_units_per_usdc))

-- `padStart(width, '0')`
unfoldable pub pad_start : ℕ → Text → Text
pad_start width s = replicate (width - length s) b'0' ++ s

drop_zeros : Text → Text
drop_zeros [] = []
drop_zeros (c ∷ s) = let rest = drop_zeros s in if c == b'0' then rest else c ∷ s

-- `replace(/0+$/, '')`
unfoldable pub strip_zeros : Text → Text
unfolding drop_zeros
strip_zeros s = reverse (drop_zeros (reverse s))

-- An amount in units of 10 ^ -width, with trailing zeros stripped.
unfoldable pub format_fixed : ℕ → ℕ → Text
unfolding pad_start strip_zeros to_string
format_fixed width units =
    let whole = units / 10 ^ width in
    let frac = units % 10 ^ width in
    if frac == 0
    then to_string whole
    else to_string whole ++ b'.' ∷ strip_zeros (pad_start width (to_string frac))

unfoldable pub format_usdc : ℕ → Text
unfolding format_fixed
format_usdc units = format_fixed usdc_decimals units

abbrev pub sats_decimals : ℕ
sats_decimals = 8

unfoldable pub format_btc_amount : ℕ → Text
unfolding format_fixed
format_btc_amount sats = format_fixed sats_decimals sats
