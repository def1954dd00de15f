-- ===== src/Listener/Nonce/Tests.antt =====
-- Runs of packages/listener/src/evm-amount-nonce.ts at concrete inputs.
use zettapay.Prelude.{
  ℕ, ◌+◌, ◌*◌, ◌≤◌, ◌≡◌, refl, true, false, List, [], ◌∷◌, has, arith, ◌==◌, some,
}
use zettapay.Listener.Errors.{ok}
use zettapay.Listener.Pricing.{Double, usd_to_usdc, format_fixed}
use zettapay.Listener.Nonce.{
  nonce_max, floor_to_base, not_finite, allocate_nonce, EncodedAmount, base_units_for_usd,
  encode_amount, match_amount,
}
use zettapay.Listener.Nonce.Amounts.{allocate_nonce_total, encode_amount_roundtrip}

-- Whole dollars.
abbrev pub whole : Double
whole = record {
  Number = ℕ;
  is_finite = λ n. true;
  le_zero = λ n. n == 0;
  times = λ n k. n * k;
  round = λ n. n;
}

abbrev active : List ℕ
active = 1 ∷ 3 ∷ 2 ∷ []

allocate_nonce_total_example :
    (n : ℕ) × (allocate_nonce active not_finite ≡ ok n)
    × (1 ≤ n)
    × (n ≤ nonce_max)
    × (has n active ≡ false)
allocate_nonce_total_example = allocate_nonce_total active not_finite (omega arith)

abbrev encoded : ℕ → EncodedAmount
encoded nonce = record {
  units = 5000000 + nonce;
  base_units = 5000000;
  nonce = nonce;
  display = format_fixed 6 (5000000 + nonce);
}

encode_amount_roundtrip_example :
    (1 ≤ 42)
    × (42 ≤ nonce_max)
    × (base_units_for_usd whole 5 ≡ ok 5000000)
    × (floor_to_base 5000042 ≡ 5000000)
    × (match_amount 5000042 5000000 ≡ some 42)
unfolding encode_amount base_units_for_usd usd_to_usdc format_fixed
encode_amount_roundtrip_example = encode_amount_roundtrip whole 5 42 {e = encoded 42} refl
