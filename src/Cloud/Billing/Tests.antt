-- ===== src/Cloud/Billing/Tests.antt =====
-- Runs of packages/cloud/src/billing.ts at concrete rows.
use zettapay.Prelude.{
  ◌+◌, ◌*◌, ◌≤◌, ◌≡◌, refl, true, Option, none, some, List, [], ◌∷◌, Text, codes, ◌===◌, text_ne,
  lower, to_lower_case, trim, elem,
}
use zettapay.Prelude.Dict.{lookup, insert}
use zettapay.Listener.Types.{Invoice, InvoiceStatus, Chain}
use zettapay.Cloud.Billing.{
  CloudDb, MerchantRow, SubscriptionRow, Method, Status, reconcile, handle_stripe_event,
  StripeObject, customer_subscription_deleted, list_pending_crypto_subscriptions, crypto_period_ms,
  reconcile_all, reconcile_one, update_merchant, update_subscription, get_merchant,
  find_subscription_by_stripe_id, insert_subscription,
}
use zettapay.Cloud.Billing.Checkout.{
  Options, Outside, create_checkout, create_crypto_checkout, price_for,
}
use zettapay.Cloud.Billing.Signature.{verify_stripe_signature}
use zettapay.Cloud.Billing.Stacked.{reconcile_stacks}
use zettapay.Cloud.Billing.Once.{
  Event, checks_out, reconciles, receives, happens, activations, all_activations, paid_once,
}
use zettapay.Cloud.Billing.Lost.{cancelling_drops_paid_time}
use zettapay.Cloud.Billing.Signed.{stripe_header, verify_stripe_signature-stripe_header}

abbrev invoice : Text → InvoiceStatus → Invoice
invoice id st = record {
  id = id;
  merchant_id = codes "platform";
  chain = Chain.base;
  asset = codes "USDC";
  amount = codes "19000000";
  address = codes "0x1";
  child_index = none;
  status = st;
  expires_at = 5000;
  paid_at = none;
  tx_hash = none;
  created_at = 0;
  updated_at = 0;
}

-- Every invoice is confirmed.
abbrev confirmed : Text → Option Invoice
confirmed id = some (invoice id InvoiceStatus.confirmed)

abbrev merchant : MerchantRow
merchant = record {
  id = codes "m";
  email = codes "m@x";
  plan = some (codes "pro");
  plan_expires_at = some 9000;
}

abbrev subscription : Text → Method → Option Text → SubscriptionRow
subscription id method stripe_id = record {
  id = id;
  merchant_id = codes "m";
  plan = codes "pro";
  method = method;
  status = Status.pending;
  invoice_id = some (codes "inv");
  stripe_session_id = none;
  stripe_subscription_id = stripe_id;
  amount_usd = 4900;
  period_end = none;
  created_at = 0;
}

-- Two subscriptions that wait for invoices, and one through Stripe.
abbrev tables : CloudDb
tables = record {
  merchants = (codes "m", merchant) ∷ [];
  subscriptions =
      (codes "a", subscription (codes "a") Method.crypto none)
      ∷ (codes "b", subscription (codes "b") Method.crypto none)
      ∷ (codes "c", subscription (codes "c") Method.stripe (some (codes "sub_1")))
      ∷ [];
}

-- Two months behind what was left.
reconcile_stacks_example :
    lookup (codes "m") (reconcile 7000 confirmed tables).merchants
    ≡ some (record merchant { plan_expires_at = some (9000 + 2 * crypto_period_ms) })
unfolding list_pending_crypto_subscriptions ◌===◌ lookup
reconcile_stacks_example =
    reconcile_stacks 7000 confirmed (codes "m") (codes "pro") tables merchant
      (λ h. refl, (λ h. refl, tt)) refl

abbrev deleted_object : StripeObject
deleted_object = record {
  id = some (codes "sub_1");
  subscription = none;
  client_reference_id = none;
  metadata_merchant_id = none;
  metadata_plan = none;
  metadata_subscription_row = none;
  line_end = none;
}

-- The two months are gone.
cancelling_drops_paid_time_example :
    let after =
      handle_stripe_event
        (λ plan. true)
        1000
        (customer_subscription_deleted deleted_object)
        (reconcile 7000 confirmed tables) in
    (lookup (codes "m") (reconcile 7000 confirmed tables).merchants
      ≡ some (record merchant { plan_expires_at = some (9000 + 2 * crypto_period_ms) }))
    × (lookup (codes "m") after.merchants
        ≡ some (record merchant { plan = some (codes "free"); plan_expires_at = none }))
unfolding lookup ◌===◌ reconcile reconcile_all reconcile_one update_merchant update_subscription
    get_merchant list_pending_crypto_subscriptions find_subscription_by_stripe_id insert
cancelling_drops_paid_time_example =
    cancelling_drops_paid_time (λ plan. true) 7000 1000 confirmed (codes "m") (codes "pro") 1
      deleted_object b's' (codes "ub_1")
      (subscription (codes "c") Method.stripe (some (codes "sub_1"))) merchant tables
      (λ h. refl, (λ h. refl, tt)) refl refl refl refl refl

abbrev options : Options
options = record {
  prices = (codes "pro", 4900) ∷ [];
  billing_merchant_id = some (codes "platform");
  stripe_config = none;
  site_url = some (codes "https://z");
}

abbrev outside : Outside
outside = record {
  chain_config = some (record { xpub = none; fixed_address = some (codes "0x1") });
  base_invoice = λ xpub. none;
  fixed_invoice = λ address asset. some (codes "inv_d");
  session = λ price. none;
}

-- A checkout, two reconciliations that find the invoices confirmed, and the end of another
-- subscription.
abbrev busy_month : List Event
busy_month =
    checks_out options outside (codes "d") 6000 (codes "m") (codes "pro") (codes "crypto")
      (codes "usdc")
    ∷ reconciles 7000 confirmed
    ∷ reconciles 8000 confirmed
    ∷ receives (λ plan. true) 9000 (customer_subscription_deleted deleted_object)
    ∷ []

checkout_activated : all_activations (codes "d") busy_month tables ≡ 1
unfolding lookup ◌===◌ reconcile reconcile_all reconcile_one update_merchant update_subscription
    get_merchant list_pending_crypto_subscriptions find_subscription_by_stripe_id insert happens
    activations all_activations create_checkout create_crypto_checkout price_for insert_subscription
    to_lower_case trim lower
checkout_activated = refl

paid_once_example : all_activations (codes "d") busy_month tables ≤ 1
unfolding lookup ◌===◌ happens
paid_once_example =
    paid_once (codes "d") busy_month tables
      (
        ((text_ne _ _ refl, (text_ne _ _ refl, tt)), ((text_ne _ _ refl, tt), (tt, tt))),
        (refl, (refl, (refl, tt))),
      )
      (refl, (tt, (tt, (tt, tt))))

abbrev stand_in : Text → Text → Text
stand_in secret s = codes "abc"

verify_stripe_signature-stripe_header_example :
    verify_stripe_signature stand_in
      (λ s. some 5)
      6000
      (some (codes "whsec"))
      (codes "{}")
      (some (stripe_header (codes "5") (codes "old" ∷ codes "abc" ∷ [])))
    ≡ true
unfolding elem ◌===◌
verify_stripe_signature-stripe_header_example =
    verify_stripe_signature-stripe_header stand_in (λ s. some 5) 6000 (codes "whsec") (codes "{}")
      (codes "5") (codes "old" ∷ codes "abc" ∷ []) (λ e. cc) ((λ e. cc), (refl, tt), (refl, tt))
      (
        ((λ e. cc), (refl, (refl, (refl, tt))), (refl, (refl, (refl, tt)))),
        (((λ e. cc), (refl, (refl, (refl, tt))), (refl, (refl, (refl, tt)))), tt),
      )
