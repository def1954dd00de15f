-- ===== src/Cloud/Billing/Tables.antt =====
-- packages/cloud/src/cloud-db.ts: the rows that billing reads and writes, as `MemoryCloudDb` holds
-- them. Times are milliseconds; the columns hold them as ISO strings, which keep every millisecond.
use zettapay.Prelude.{
  ℕ, Bool, true, false, ◌&&◌, Option, none, some, List, [], ◌∷◌, Text, ◌===◌, find, keep,
}
use zettapay.Prelude.Dict.{Dict, lookup, insert, update_at}

pub record MerchantRow : Type 0 where
  pub id : Text
  pub email : Text
  pub plan : Option Text
  pub plan_expires_at : Option ℕ

pub data Method : Type 0 where
  crypto stripe : Method

pub data Status : Type 0 where
  pending active expired canceled : Status

pub record SubscriptionRow : Type 0 where
  pub id : Text
  pub merchant_id : Text
  pub plan : Text
  pub method : Method
  pub status : Status
  pub invoice_id : Option Text
  pub stripe_session_id : Option Text
  pub stripe_subscription_id : Option Text
  pub amount_usd : ℕ
  pub period_end : Option ℕ
  pub created_at : ℕ

pub record CloudDb : Type 0 where
  pub merchants : Dict MerchantRow
  pub subscriptions : Dict SubscriptionRow

-- The columns that billing changes; `none` is one that stays.
pub record SubscriptionPatch : Type 0 where
  pub to_status : Status
  pub to_stripe_subscription_id : Option (Option Text)
  pub to_period_end : Option (Option ℕ)

abbrev pub or_old : {A : Type 0} → A → Option A → A
or_old a none = a
or_old a (some b) = b

abbrev pub is_pending : Status → Bool
is_pending pending = true
is_pending active = false
is_pending expired = false
is_pending canceled = false

abbrev pub is_crypto : Method → Bool
is_crypto crypto = true
is_crypto stripe = false

abbrev pub is_pending_crypto : SubscriptionRow → Bool
is_pending_crypto s = is_pending s.status && is_crypto s.method

abbrev pub has_stripe_id : Text → Option Text → Bool
has_stripe_id id none = false
has_stripe_id id (some other) = other === id

-- `Map.prototype.values`
abbrev pub values : {V : Type 0} → Dict V → List V
values [] = []
values ((k, v) ∷ d) = v ∷ values d

unfoldable pub get_merchant : Text → CloudDb → Option MerchantRow
get_merchant id d = lookup id d.merchants

-- The plan of a merchant and its end; no merchant, no change.
unfoldable pub update_merchant : Text → Text → Option ℕ → CloudDb → CloudDb
unfolding update_at
update_merchant id plan period_end d = record d {
  merchants =
      update_at id (λ row. record row { plan = some plan; plan_expires_at = period_end })
        d.merchants;
}

unfoldable pub insert_subscription : SubscriptionRow → CloudDb → CloudDb
insert_subscription row d = record d { subscriptions = insert row.id row d.subscriptions }

abbrev pub patched : SubscriptionPatch → SubscriptionRow → SubscriptionRow
patched patch row = record row {
  status = patch.to_status;
  stripe_subscription_id = or_old row.stripe_subscription_id patch.to_stripe_subscription_id;
  period_end = or_old row.period_end patch.to_period_end;
}

unfoldable pub update_subscription : Text → SubscriptionPatch → CloudDb → CloudDb
unfolding update_at
update_subscription id patch d = record d {
  subscriptions = update_at id (patched patch) d.subscriptions;
}

unfoldable pub list_pending_crypto_subscriptions : CloudDb → List SubscriptionRow
list_pending_crypto_subscriptions d = keep is_pending_crypto (values d.subscriptions)

unfoldable pub find_subscription_by_stripe_id : Text → CloudDb → Option SubscriptionRow
find_subscription_by_stripe_id id d =
    find (λ s. has_stripe_id id s.stripe_subscription_id) (values d.subscriptions)
