-- ===== src/Cloud/Billing/Lost.antt =====
-- packages/cloud/src/billing.ts: what an event of Stripe does to time that is paid for.
use zettapay.Prelude.{
  ℕ, suc, Option, codes, ◌===◌, text_eq_iff, arith, ◌≡◌, refl, sym, ap, ◌∙◌, Bool, none, some, ◌∷◌,
  Text, text_eq_refl, if◌then◌else◌, Bool-cases, inl, inr,
}
use zettapay.Prelude.Dict.{lookup}
use zettapay.Listener.Types.{Invoice}
use zettapay.Cloud.Billing.Stacked.{AreFor, count_paid, extended, reconcile_stacks}
use zettapay.Cloud.Plans.{default_plan}
use zettapay.Cloud.Billing.Rows.{update_subscription-merchants, update_merchant-lookup, replanned}
use zettapay.Cloud.Billing.{
  CloudDb, MerchantRow, SubscriptionRow, update_subscription, get_merchant,
  find_subscription_by_stripe_id, StripeObject, customer_subscription_deleted, handle_stripe_event,
  list_pending_crypto_subscriptions, reconcile, downgrade, is_plan, to_status_only, canceled,
}

downgrade-lookup :
    (sub : SubscriptionRow) (row : MerchantRow) (d : CloudDb)
    → lookup sub.merchant_id d.merchants ≡ some row
    → lookup sub.merchant_id (downgrade sub (some row) d).merchants
      ≡ some (if is_plan sub.plan row.plan then replanned default_plan none row else row)
downgrade-lookup sub row d found = elim (Bool-cases (is_plan sub.plan row.plan)) [
  | inl same ↦ rw (same, update_merchant-lookup, text_eq_refl sub.merchant_id, found) refl
  | inr other ↦ rw other found
]

downgrade-found :
    (sub : SubscriptionRow) (row : MerchantRow) (d : CloudDb)
    → lookup sub.merchant_id d.merchants ≡ some row
    → lookup sub.merchant_id (downgrade sub (get_merchant sub.merchant_id d) d).merchants
      ≡ some (if is_plan sub.plan row.plan then replanned default_plan none row else row)
unfolding get_merchant
downgrade-found sub row d found =
    ap (λ o. lookup sub.merchant_id (downgrade sub o d).merchants) found
    ∙ downgrade-lookup sub row d found

-- The merchant's row goes back to the free plan if it has the plan of the subscription.
handle_stripe_event-deleted :
    (is_price : Text → Bool) (now : ℕ) (obj : StripeObject) (c : ℕ) (id : Text)
    (sub : SubscriptionRow) (row : MerchantRow) (d : CloudDb)
    → obj.id ≡ some (c ∷ id)
    → find_subscription_by_stripe_id (c ∷ id) d ≡ some sub
    → lookup sub.merchant_id d.merchants ≡ some row
    → lookup sub.merchant_id
        (handle_stripe_event is_price now (customer_subscription_deleted obj) d).merchants
      ≡ some (if is_plan sub.plan row.plan then replanned default_plan none row else row)
unfolding handle_stripe_event
handle_stripe_event-deleted is_price now obj c id sub row d has_id found there =
    rw (has_id, found)
      (downgrade-found sub row (update_subscription sub.id (to_status_only canceled) d)
        (rw update_subscription-merchants there))

text_eq_sym : (s t : Text) → (t === s) ≡ (s === t)
text_eq_sym s t = ground (arith, text_eq_iff s t, text_eq_iff t s)

cancelled_row :
    (now : ℕ) (get_invoice : Text → Option Invoice) (m plan : Text) (n : ℕ) (sub : SubscriptionRow)
    (row : MerchantRow)
    → (if is_plan sub.plan (extended now get_invoice m plan (suc n) row).plan
        then replanned default_plan none (extended now get_invoice m plan (suc n) row)
        else extended now get_invoice m plan (suc n) row)
      ≡ (if sub.plan === plan
          then record row { plan = some (codes "free"); plan_expires_at = none }
          else extended now get_invoice m plan (suc n) row)
cancelled_row now get_invoice m plan n sub row = elim (Bool-cases (sub.plan === plan)) [
  | inl same ↦ rw (same, text_eq_sym sub.plan plan, same) refl
  | inr other ↦ rw (other, text_eq_sym sub.plan plan, other) refl
]

-- A merchant has paid invoices that are not settled, at least one, all for one plan, and `reconcile`
-- settles them: the merchant is on the plan for 30 days per invoice behind the time that was left. If Stripe then reports that a
-- subscription of the merchant's is deleted, at whatever time, and that subscription is for the same
-- plan, the merchant is on the free plan, and the time that the invoices paid for is gone; if it is
-- for another plan, the row stays.
pub cancelling_drops_paid_time :
    (is_price : Text → Bool) (now later : ℕ) (get_invoice : Text → Option Invoice) (m plan : Text)
    (n : ℕ) (obj : StripeObject) (c : ℕ) (id : Text) (sub : SubscriptionRow) (row : MerchantRow)
    (d : CloudDb)
    → AreFor now get_invoice m plan (list_pending_crypto_subscriptions d)
    → count_paid now get_invoice m plan (list_pending_crypto_subscriptions d) ≡ suc n
    → lookup m d.merchants ≡ some row
    → obj.id ≡ some (c ∷ id)
    → find_subscription_by_stripe_id (c ∷ id) (reconcile now get_invoice d) ≡ some sub
    → sub.merchant_id ≡ m
    → let paid = reconcile now get_invoice d in
      let after = handle_stripe_event is_price later (customer_subscription_deleted obj) paid in
      (lookup m paid.merchants ≡ some (extended now get_invoice m plan (suc n) row))
      × (lookup m after.merchants
          ≡ some (
              if sub.plan === plan
              then record row { plan = some (codes "free"); plan_expires_at = none }
              else extended now get_invoice m plan (suc n) row))
cancelling_drops_paid_time is_price now later get_invoice m plan n obj c id sub row d same paid
      there has_id found own =
    let stacked : lookup m (reconcile now get_invoice d).merchants
        ≡ some (extended now get_invoice m plan (suc n) row) =
      reconcile_stacks now get_invoice m plan d row same there
      ∙ ap (λ k. some (extended now get_invoice m plan k row)) paid in
    let gone =
      handle_stripe_event-deleted is_price later obj c id sub
        (extended now get_invoice m plan (suc n) row) (reconcile now get_invoice d) has_id found
        (ap (λ j. lookup j (reconcile now get_invoice d).merchants) own ∙ stacked) in
    let after =
      handle_stripe_event is_price later (customer_subscription_deleted obj)
        (reconcile now get_invoice d) in
    (
      stacked,
      ap (λ j. lookup j after.merchants) (sym own)
          ∙ gone
          ∙ ap some (cancelled_row now get_invoice m plan n sub row),
    )
