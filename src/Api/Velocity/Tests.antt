-- ===== src/Api/Velocity/Tests.antt =====
-- Runs of packages/api/src/services/velocity.ts.
use zettapay.Prelude.{
  ℕ, ◌+◌, ◌-◌, ◌≤◌, ◌≡◌, refl, arith, List, [], ◌∷◌, Text, codes, ◌===◌, length, ltb,
}
use zettapay.Api.Velocity.{
  Amounts, VelocityLimits, one_minute_ms, count_payments_by_payer_since, enforce_velocity_limits,
  sum_payment_amount_by_merchant_since,
}
use zettapay.Api.Velocity.Window.{Event, tries, fails, happens, happen, payer_bound}

abbrev cents : Amounts
cents = record { Amount = ℕ; zero_amount = 0; plus = λ a b. a + b; exceeds = λ a b. ltb b a }

-- Two payments of a wallet in a minute.
abbrev two_a_minute : Text → VelocityLimits cents
two_a_minute merchant_id = record { max_payments_per_minute = 2; max_amount_per_hour = 100000 }

-- The third try is refused; once the second payment has failed, the fourth is let through.
abbrev five_events : List (Event cents)
five_events =
    tries 1000 1001 (codes "m") (codes "w") 5
    ∷ tries 2000 2001 (codes "m") (codes "w") 5
    ∷ tries 3000 3001 (codes "m") (codes "w") 5
    ∷ fails 0
    ∷ tries 4000 4001 (codes "m") (codes "w") 5
    ∷ []

third_refused : length (happen cents two_a_minute five_events []) ≡ 3
unfolding ◌===◌ happen happens enforce_velocity_limits count_payments_by_payer_since
    sum_payment_amount_by_merchant_since
third_refused = refl

payer_bound_example :
    count_payments_by_payer_since cents
      (happen cents two_a_minute five_events [])
      (codes "m")
      (codes "w")
      (5000 - one_minute_ms)
    ≤ 2
payer_bound_example =
    payer_bound cents (codes "m") (codes "w") two_a_minute five_events 5000 (omega arith)
      (
        (omega arith, omega arith),
        (
          (omega arith, omega arith),
          ((omega arith, omega arith), (tt, ((omega arith, omega arith), tt))),
        ),
      )
      (omega arith)
