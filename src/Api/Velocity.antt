-- ===== src/Api/Velocity.antt =====
-- packages/api/src/services/velocity.ts: the caps on the payments of a wallet in a minute and on the
-- amount of a merchant in an hour. Times are milliseconds; amounts and their sum are a parameter,
-- and a cap on payments is a whole number.
pub mod Window
mod Tests
use zettapay.Prelude.{
  ℕ, ◌+◌, ◌-◌, ◌*◌, Bool, true, false, not, ◌&&◌, List, [], ◌∷◌, ◌++◌, Text, ◌===◌, length, keep,
  leb, ltb, map, if◌then◌else◌,
}
use zettapay.Api.Errors.{Result, ok, err, http, rate_limited_error}

abbrev pub one_minute_ms : ℕ
one_minute_ms = 60 * 1000

abbrev pub one_hour_ms : ℕ
one_hour_ms = 60 * 60 * 1000

-- Numbers of JavaScript.
pub record Amounts : Type 1 where
  pub Amount : Type 0
  pub zero_amount : Amount
  pub plus : Amount → Amount → Amount
  pub exceeds : Amount → Amount → Bool

module _ (a : Amounts) where
  -- A row of the payments, as far as the caps read it.
  pub record Payment : Type 0 where
    pub merchant_id : Text
    pub payer_wallet : Text
    pub amount : a.Amount
    pub has_failed : Bool
    pub created_at : ℕ

  pub record VelocityLimits : Type 0 where
    pub max_payments_per_minute : ℕ
    pub max_amount_per_hour : a.Amount

  pub record VelocityCheckInput : Type 0 where
    pub merchant_id : Text
    pub velocity : VelocityLimits
    pub payer_wallet : Text
    pub amount : a.Amount
    pub now : ℕ

  pub record VelocityCheckTelemetry : Type 0 where
    pub payer_count_in_window : ℕ
    pub merchant_spend_in_window : a.Amount
    pub per_minute_limit : ℕ
    pub per_hour_amount_limit : a.Amount

  abbrev pub is_of_payer : Text → Text → ℕ → Payment → Bool
  is_of_payer merchant_id payer_wallet since p =
      p.merchant_id === merchant_id
      && (p.payer_wallet === payer_wallet)
      && leb since p.created_at
      && not p.has_failed

  unfoldable pub count_payments_by_payer_since : List Payment → Text → Text → ℕ → ℕ
  count_payments_by_payer_since rows merchant_id payer_wallet since =
      length (keep (is_of_payer merchant_id payer_wallet since) rows)

  abbrev pub sum_amounts : List Payment → a.Amount
  sum_amounts [] = a.zero_amount
  sum_amounts (p ∷ rows) = a.plus p.amount (sum_amounts rows)

  abbrev pub is_of_merchant : Text → ℕ → Payment → Bool
  is_of_merchant merchant_id since p =
      p.merchant_id === merchant_id && leb since p.created_at && not p.has_failed

  unfoldable pub sum_payment_amount_by_merchant_since : List Payment → Text → ℕ → a.Amount
  sum_payment_amount_by_merchant_since rows merchant_id since =
      sum_amounts (keep (is_of_merchant merchant_id since) rows)

  -- The rows are only read; the audit entry of a refusal is left out.
  unfoldable pub enforce_velocity_limits :
      List Payment → VelocityCheckInput → Result VelocityCheckTelemetry
  enforce_velocity_limits rows input =
      let per_minute = input.velocity.max_payments_per_minute in
      let per_hour = input.velocity.max_amount_per_hour in
      let count =
        count_payments_by_payer_since rows input.merchant_id input.payer_wallet
          (input.now - one_minute_ms) in
      let spend =
        sum_payment_amount_by_merchant_since rows input.merchant_id (input.now - one_hour_ms) in
      if ltb 0 per_minute && ltb per_minute (count + 1)
      then err (http rate_limited_error)
      else if a.exceeds per_hour a.zero_amount && a.exceeds (a.plus spend input.amount) per_hour
      then err (http rate_limited_error)
      else ok (record {
        payer_count_in_window = count;
        merchant_spend_in_window = spend;
        per_minute_limit = per_minute;
        per_hour_amount_limit = per_hour;
      })
