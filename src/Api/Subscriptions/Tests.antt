-- ===== src/Api/Subscriptions/Tests.antt =====
-- packages/api/src/services/subscription_charger.ts: examples.
use zettapay.Prelude.{
  ℕ, ◌+◌, ◌≤◌, ◌<◌, ◌≡◌, refl, true, Option, none, some, List, [], ◌∷◌, Text, codes, ◌===◌, arith,
  zero, suc,
}
use zettapay.Api.Subscriptions.{
  Subscription, SubscriptionInterval, daily, weekly, monthly, active, Payments, Db, Signing,
  Waiting, Transfer, signed, refused, begin_one, finish_one, fail_charge, charge_one, charge_all,
  charge_due_subscriptions, list_due_subscriptions, find_subscription, find_merchant_by_id,
  record_subscription_charge, record_subscription_failure, append_audit,
  verify_subscription_authorization, charged_row, update_row,
}
use zettapay.Api.Subscriptions.Rows.{charges, schedule, charge_entry}
use zettapay.Api.Subscriptions.Cycles.{iterate, Tick, run_ticks, charged_once_per_cycle}
use zettapay.Api.Subscriptions.Overlap.{overlapping_ticks_charge_twice}

abbrev payments : Payments ℕ
payments = record {
  Table = List Text;
  insert_payment = λ id s t. some (id ∷ t);
  mark_payment_processing = λ id t. t;
  mark_payment_completed = λ id tx t. some t;
  mark_payment_failed = λ id t. t;
}

abbrev raw : ℕ → List ℕ
raw zero = []
raw (suc n) = 1 ∷ raw n

abbrev decode : Text → Option (List ℕ)
decode [] = none
decode (c ∷ s) = some (raw c)

abbrev signing : Signing ℕ
signing = record { base58 = decode; ed25519 = λ key message sig. true; show_amount = λ n. [] }

abbrev days : SubscriptionInterval → ℕ → ℕ
days daily t = t + 1
days weekly t = t + 7
days monthly t = t + 30

abbrev row : Subscription ℕ
row = record {
  id = codes "sub";
  merchant_id = codes "m";
  customer_wallet = 32 ∷ [];
  amount = 5;
  currency = codes "USDC";
  interval = weekly;
  status = active;
  next_charge_at = 10;
  last_charge_at = none;
  authorization = some (record { signature = 64 ∷ []; public_key = 32 ∷ [] });
  failed_charge_count = 0;
  last_failure_reason = none;
}

abbrev db : Db payments
db = record {
  subscriptions = row ∷ [];
  merchants = record { id = codes "m"; wallet_address = codes "w" } ∷ [];
  payments = [];
  audit = [];
}

abbrev tick : ℕ → Transfer → Tick payments signing days 3
tick now transfer = record { now = now; batch_size = 50; world = λ id. (codes "pay", transfer) }

-- Too early, a refused transfer, two charges that catch up, and too early again.
abbrev ticks : List (Tick payments signing days 3)
ticks =
    tick 9 (signed (codes "t"))
    ∷ tick 18 refused
    ∷ tick 18 (signed (codes "t"))
    ∷ tick 18 (signed (codes "u"))
    ∷ tick 20 (signed (codes "v"))
    ∷ []

runs_charge : charges (codes "sub") (run_ticks ticks db).audit ≡ 2
unfolding ◌===◌ find_subscription find_merchant_by_id list_due_subscriptions
    record_subscription_charge record_subscription_failure append_audit
    verify_subscription_authorization fail_charge begin_one finish_one charge_one charge_all
    charge_due_subscriptions
runs_charge = refl

charged_once_per_cycle_example :
    let d' = run_ticks ticks db in
    let n = charges (codes "sub") d'.audit in
    (schedule (codes "sub") d' ≡ some (weekly, iterate (days weekly) n 10))
    × ((k : ℕ) → k < n → iterate (days weekly) k 10 ≤ 20)
unfolding ◌===◌ find_subscription
charged_once_per_cycle_example =
    charged_once_per_cycle payments signing days 3 (codes "sub") 10 weekly 20 ticks db
      (omega arith, (omega arith, (omega arith, (omega arith, (omega arith, omega arith)))))
      (omega arith) refl refl

abbrev waiting : Text → Waiting ℕ
waiting payment_id = record { subscription = row; payment_id = payment_id }

abbrev paying : List Text → Db payments
paying ids = record db { payments = ids }

abbrev after : Db payments
after =
    append_audit (charge_entry row.id)
      (update_row row.id (charged_row 12 17) (paying (codes "q" ∷ codes "p" ∷ [])))

abbrev after_both : Db payments
after_both = append_audit (charge_entry row.id) (update_row row.id (charged_row 13 17) after)

overlapping_ticks_charge_twice_example :
    (list_due_subscriptions 12 50 (paying (codes "p" ∷ [])) ≡ list_due_subscriptions 12 50 db)
    × (charges row.id after_both.audit ≡ 2)
    × (schedule row.id after_both ≡ some (weekly, 17))
unfolding ◌===◌ find_subscription find_merchant_by_id record_subscription_charge append_audit
    verify_subscription_authorization begin_one finish_one
overlapping_ticks_charge_twice_example =
    overlapping_ticks_charge_twice payments signing days 3 row db (paying (codes "p" ∷ []))
      (paying (codes "q" ∷ codes "p" ∷ [])) after after_both 12 13 50 (codes "p") (codes "q")
      (codes "t") (codes "u") (waiting (codes "p")) (waiting (codes "q")) refl refl refl refl refl
