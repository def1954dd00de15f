-- ===== src/Cloud/Billing.antt =====
-- packages/cloud/src/billing.ts: plans that merchants pay for, with an invoice or through Stripe.
-- Each call is one step at one instant. The invoices, what Stripe answers, the HMAC and the names
-- that every object inherits are parameters; the form of a request to Stripe and its texts are left
-- out. Prices are in cents.
pub mod Tables
pub mod Checkout
pub mod Signature
pub mod Rows
pub mod Stacked
pub mod Budget
pub mod Updates
pub mod Once
pub mod Lost
pub mod Signed
mod Tests
unfoldable pub use Tables.*
use zettapay.Prelude.{
  ℕ, ◌+◌, ◌*◌, ◌-◌, max, Bool, true, false, not, ◌&&◌, ◌||◌, Option, none, some, List, [], ◌∷◌,
  ◌++◌, Text, codes, ◌===◌, ◌==◌, ltb, is_some, if◌then◌else◌, elem, trim, to_lower_case, split,
}
use zettapay.Prelude.Dict.{Dict, lookup}
use zettapay.Listener.Types.{Invoice, InvoiceStatus}
use zettapay.Cloud.Plans.{default_plan}

abbrev pub crypto_period_ms : ℕ
crypto_period_ms = 30 * 24 * 60 * 60 * 1000

abbrev pub stripe_grace_ms : ℕ
stripe_grace_ms = 3 * 24 * 60 * 60 * 1000

abbrev pub stripe_signature_tolerance_s : ℕ
stripe_signature_tolerance_s = 300

-- `merchant?.plan === plan`
abbrev pub is_plan : Text → Option Text → Bool
is_plan plan none = false
is_plan plan (some other) = other === plan

abbrev pub or_zero : Option ℕ → ℕ
or_zero none = 0
or_zero (some n) = n

-- What is left of the same plan.
abbrev pub current_end : Text → Option MerchantRow → ℕ
current_end plan none = 0
current_end plan (some m) = if is_plan plan m.plan then or_zero m.plan_expires_at else 0

abbrev pub activate : Text → Text → Option ℕ → CloudDb → CloudDb
activate merchant_id plan period_end = update_merchant merchant_id plan period_end

abbrev pub to_active : ℕ → SubscriptionPatch
to_active period_end = record {
  to_status = active;
  to_stripe_subscription_id = none;
  to_period_end = some (some period_end);
}

abbrev pub to_status_only : Status → SubscriptionPatch
to_status_only st = record {
  to_status = st;
  to_stripe_subscription_id = none;
  to_period_end = none;
}

abbrev pub settled_end : ℕ → SubscriptionRow → CloudDb → ℕ
settled_end now sub d =
    max now (current_end sub.plan (get_merchant sub.merchant_id d)) + crypto_period_ms

-- The branch of a confirmed invoice.
abbrev pub settle : ℕ → SubscriptionRow → CloudDb → CloudDb
settle now sub d =
    let period_end = settled_end now sub d in
    update_subscription sub.id (to_active period_end)
      (activate sub.merchant_id sub.plan (some period_end) d)

-- Whether the attempt is over, by the invoice's status and expiry.
abbrev pub is_closed : ℕ → InvoiceStatus → ℕ → Bool
is_closed now InvoiceStatus.pending expires_at = ltb expires_at now
is_closed now InvoiceStatus.partial expires_at = false
is_closed now InvoiceStatus.confirmed expires_at = false
is_closed now InvoiceStatus.expired expires_at = true
is_closed now InvoiceStatus.failed expires_at = true

abbrev pub is_confirmed : InvoiceStatus → Bool
is_confirmed InvoiceStatus.confirmed = true
is_confirmed InvoiceStatus.pending = false
is_confirmed InvoiceStatus.partial = false
is_confirmed InvoiceStatus.expired = false
is_confirmed InvoiceStatus.failed = false

abbrev pub with_invoice : ℕ → SubscriptionRow → Option Invoice → CloudDb → CloudDb
with_invoice now sub none d = d
with_invoice now sub (some inv) d =
    if is_confirmed inv.status
    then settle now sub d
    else if is_closed now inv.status inv.expires_at
    then update_subscription sub.id (to_status_only expired) d
    else d

-- `if (!sub.invoice_id) continue`
abbrev pub invoice_of : (Text → Option Invoice) → Option Text → Option Invoice
invoice_of get_invoice none = none
invoice_of get_invoice (some []) = none
invoice_of get_invoice (some (c ∷ id)) = get_invoice (c ∷ id)

-- One round of the loop.
unfoldable pub reconcile_one : ℕ → (Text → Option Invoice) → SubscriptionRow → CloudDb → CloudDb
reconcile_one now get_invoice sub d = with_invoice now sub (invoice_of get_invoice sub.invoice_id) d

unfoldable pub reconcile_all :
    ℕ → (Text → Option Invoice) → List SubscriptionRow → CloudDb → CloudDb
reconcile_all now get_invoice [] d = d
reconcile_all now get_invoice (sub ∷ subs) d =
    reconcile_all now get_invoice subs (reconcile_one now get_invoice sub d)

unfoldable pub reconcile : ℕ → (Text → Option Invoice) → CloudDb → CloudDb
reconcile now get_invoice d = reconcile_all now get_invoice (list_pending_crypto_subscriptions d) d

-- The object of a Stripe event, by the members that are read; a member of another type is `none`.
pub record StripeObject : Type 0 where
  pub id : Option Text
  pub subscription : Option Text
  pub client_reference_id : Option Text
  pub metadata_merchant_id : Option Text
  pub metadata_plan : Option Text
  pub metadata_subscription_row : Option Text
  -- `lines.data[0].period.end`, in seconds
  pub line_end : Option ℕ

pub data StripeEvent : Type 0 where
  checkout_session_completed : StripeObject → StripeEvent
  invoice_paid : StripeObject → StripeEvent
  customer_subscription_deleted : StripeObject → StripeEvent
  other_event : StripeEvent

abbrev pub text_or : Option Text → Text → Text
text_or none s = s
text_or (some t) s = t

abbrev pub is_empty : Text → Bool
is_empty [] = true
is_empty (c ∷ s) = false

abbrev pub mark_row : Text → Option Text → ℕ → CloudDb → CloudDb
mark_row [] stripe_id period_end d = d
mark_row (c ∷ row_id) stripe_id period_end d =
    update_subscription (c ∷ row_id)
      (record {
        to_status = active;
        to_stripe_subscription_id = some stripe_id;
        to_period_end = some (some period_end);
      })
      d

-- `lineEnd > 0 ? lineEnd * 1000 : now + CRYPTO_PERIOD_MS`
abbrev pub period_base : ℕ → ℕ → ℕ
period_base now line_end = if ltb 0 line_end then line_end * 1000 else now + crypto_period_ms

-- No lookup for an id that is empty.
abbrev pub found_by : Option Text → CloudDb → Option SubscriptionRow
found_by none d = none
found_by (some []) d = none
found_by (some (c ∷ id)) d = find_subscription_by_stripe_id (c ∷ id) d

abbrev pub renewed : ℕ → StripeObject → CloudDb → Option SubscriptionRow → CloudDb
renewed now obj d none = d
renewed now obj d (some sub) =
    let period_end = period_base now (or_zero obj.line_end) + stripe_grace_ms in
    update_subscription sub.id (to_active period_end)
      (activate sub.merchant_id sub.plan (some period_end) d)

abbrev pub downgrade : SubscriptionRow → Option MerchantRow → CloudDb → CloudDb
downgrade sub none d = d
downgrade sub (some m) d =
    if is_plan sub.plan m.plan then activate sub.merchant_id default_plan none d else d

abbrev pub cancelled : CloudDb → Option SubscriptionRow → CloudDb
cancelled d none = d
cancelled d (some sub) =
    let d' = update_subscription sub.id (to_status_only canceled) d in
    downgrade sub (get_merchant sub.merchant_id d') d'

module _ (is_price : Text → Bool) where
  -- `is_price plan` stands for `plan in this.prices`.
  abbrev pub completed : ℕ → StripeObject → CloudDb → CloudDb
  completed now obj d =
      let merchant_id = text_or obj.metadata_merchant_id (text_or obj.client_reference_id []) in
      let plan = text_or obj.metadata_plan [] in
      let period_end = now + crypto_period_ms + stripe_grace_ms in
      if is_empty merchant_id || is_empty plan || not (is_price plan)
      then d
      else mark_row (text_or obj.metadata_subscription_row []) obj.subscription period_end
          (activate merchant_id plan (some period_end) d)

  unfoldable pub handle_stripe_event : ℕ → StripeEvent → CloudDb → CloudDb
  handle_stripe_event now (checkout_session_completed obj) d = completed now obj d
  handle_stripe_event now (invoice_paid obj) d = renewed now obj d (found_by obj.subscription d)
  handle_stripe_event now (customer_subscription_deleted obj) d = cancelled d (found_by obj.id d)
  handle_stripe_event now other_event d = d
