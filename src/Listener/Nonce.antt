-- ===== src/Listener/Nonce.antt =====
-- packages/listener/src/evm-amount-nonce.ts: the payer of a shared address is known by the exact
-- amount, whose last four decimals are the invoice's nonce.
pub mod Laws
pub mod Amounts
mod Tests
use zettapay.Prelude.{
  ℕ, zero, suc, ◌+◌, ◌-◌, ◌*◌, ◌/◌, ◌%◌, Bool, true, false, ◌||◌, List, Option, none, some, Text,
  ltb, if◌then◌else◌, has,
}
use zettapay.Prelude.Int.{ℤ, pos, pos_part, ◌+ℤ◌, ◌-ℤ◌, rem}
use zettapay.Listener.Errors.{
  Error, nonce_out_of_range, pool_exhausted, Result, ok, err, ◌>>=◌, ◌>>◌, guard, or_throw,
}
use zettapay.Listener.Pricing.{Double, usd_to_usdc, usdc_decimals, format_fixed}

abbrev pub nonce_max : ℕ
nonce_max = 9999

abbrev pub nonce_modulus : ℕ
nonce_modulus = 10000

-- `Math.floor(n / NONCE_MODULUS) * NONCE_MODULUS`
abbrev pub floor_to_base : ℕ → ℕ
floor_to_base n = n / nonce_modulus * nonce_modulus

-- An argument of type `number`, as far as `Math.floor` and `Number.isFinite` see it.
pub data Start : Type 0 where
  not_finite : Start
  integer : ℤ → Start

unfoldable pub normalize_nonce_start : Start → ℕ
normalize_nonce_start not_finite = 1
normalize_nonce_start (integer s) =
    pos_part (rem (rem (s -ℤ pos 1) nonce_max +ℤ pos nonce_max) nonce_max +ℤ pos 1)

-- The loop of `allocateNonce`: `i` counts up, `left` is the number of rounds left.
unfoldable pub scan : List ℕ → ℕ → ℕ → ℕ → Option ℕ
scan active origin i zero = none
scan active origin i (suc left) =
    let n = (origin - 1 + i) % nonce_max + 1 in
    let rest = scan active origin (i + 1) left in if has n active then rest else some n

unfoldable pub allocate_nonce : List ℕ → Start → Result ℕ
allocate_nonce active start =
    or_throw (scan active (normalize_nonce_start start) 0 nonce_max) pool_exhausted

pub record EncodedAmount : Type 0 where
  pub units : ℕ
  pub base_units : ℕ
  pub nonce : ℕ
  pub display : Text

module _ (d : Double) where
  unfoldable pub base_units_for_usd : d.Number → Result ℕ
  base_units_for_usd usd = do raw ← usd_to_usdc d usd; ok (floor_to_base raw)

  unfoldable pub encode_amount : d.Number → ℕ → Result EncodedAmount
  encode_amount usd nonce = do
    guard (if ltb nonce 1 || ltb nonce_max nonce then false else true) nonce_out_of_range
    base ← base_units_for_usd usd
    ok (record {
      units = base + nonce;
      base_units = base;
      nonce = nonce;
      display = format_fixed usdc_decimals (base + nonce);
    })

-- `null` is `none`.
unfoldable pub match_amount : ℕ → ℕ → Option ℕ
match_amount received base =
    if ltb received base
    then none
    else if ltb nonce_max (received - base)
    then none
    else some (received - base)
