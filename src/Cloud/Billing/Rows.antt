-- ===== src/Cloud/Billing/Rows.antt =====
-- packages/cloud/src/cloud-db.ts: what the updates do to the rows.
use zettapay.Prelude.{ℕ, ◌≡◌, refl, Option, some, Text, ◌===◌, if◌then◌else◌}
use zettapay.Prelude.Dict.{lookup, map_found, lookup-update_at}
use zettapay.Cloud.Billing.Tables.{
  CloudDb, MerchantRow, SubscriptionPatch, patched, update_merchant, update_subscription,
}

abbrev pub replanned : Text → Option ℕ → MerchantRow → MerchantRow
replanned plan period_end row = record row { plan = some plan; plan_expires_at = period_end }

pub update_subscription-lookup :
    (id j : Text) (patch : SubscriptionPatch) (d : CloudDb)
    → lookup j (update_subscription id patch d).subscriptions ≡ (
        if id === j
        then map_found (patched patch) (lookup j d.subscriptions)
        else lookup j d.subscriptions)
unfolding update_subscription
update_subscription-lookup id j patch d = lookup-update_at id (patched patch) j d.subscriptions

pub update_subscription-merchants :
    (id : Text) (patch : SubscriptionPatch) (d : CloudDb)
    → (update_subscription id patch d).merchants ≡ d.merchants
unfolding update_subscription
update_subscription-merchants id patch d = refl

pub update_merchant-lookup :
    (id j plan : Text) (period_end : Option ℕ) (d : CloudDb)
    → lookup j (update_merchant id plan period_end d).merchants ≡ (
        if id === j
        then map_found (replanned plan period_end) (lookup j d.merchants)
        else lookup j d.merchants)
unfolding update_merchant
update_merchant-lookup id j plan period_end d =
    lookup-update_at id (replanned plan period_end) j d.merchants

pub update_merchant-subscriptions :
    (id plan : Text) (period_end : Option ℕ) (d : CloudDb)
    → (update_merchant id plan period_end d).subscriptions ≡ d.subscriptions
unfolding update_merchant
update_merchant-subscriptions id plan period_end d = refl
